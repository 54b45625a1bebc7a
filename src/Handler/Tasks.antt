-- ===== src/Handler/Tasks.antt =====
-- src/collaboration/server/handler.rs: adding, claiming, advancing and completing a task, and the
-- request for its file.
use Prim.Native.String.{◌++◌ as str_append}
use x_videos_dowloads.Prelude.{
  ℕ, ◌+◌, ◌%◌, ◌^◌, String, List, Option, none, some, Result, ok, err, find, ◌==◌, opt_eq,
  unwrap_or, contains, if◌then◌else◌,
}
use x_videos_dowloads.Prelude.Text.{file_name}
use x_videos_dowloads.Float.{f64_one}
use x_videos_dowloads.Types.{
  Task, Device, new_task, queued, claimed, complete, status_eq, task_added, task_claimed,
  task_updated, file_available, error,
}
use x_videos_dowloads.HashRing.{get_owner}
use x_videos_dowloads.Db.Devices.{get_device}
use x_videos_dowloads.Db.Tasks.{create_task, update_task, get_tasks_by_team}
use x_videos_dowloads.Handler.State.{Server, Env, send_to_device, broadcast_to_team}

-- `version += 1` on a `u64` of a release build.
unfoldable pub bump : ℕ → ℕ
bump version = (version + 1) % 2 ^ 64

abbrev pub assigned : Env → ℕ → Task → Task
assigned env owner_id task = record task {
  status = claimed;
  claimed_by = some owner_id;
  claimed_at = some env.now;
}

-- The assignment by the hash ring and the broadcast, once the task is stored.
unfoldable pub assign_task : Env → ℕ → Task → Option ℕ → Server → Server
unfolding send_to_device broadcast_to_team
assign_task env team_id task none s = broadcast_to_team team_id (task_added task) s
assign_task env team_id task (some owner_id) s =
    let db = (update_task env.second_fault (assigned env owner_id task) team_id s.db).1 in
    broadcast_to_team team_id (task_added (assigned env owner_id task))
      (send_to_device owner_id (task_claimed task.id owner_id) (record s { db = db }))

-- The text that a refused task is answered with.
unfoldable pub add_error : String → String
add_error e =
    if contains e "URL already exists"
    then "URL already exists"
    else str_append "Failed to create task: " e

unfoldable pub add_answer : Env → ℕ → ℕ → Task → Result (Unit {0}) → Server → Server
unfolding assign_task send_to_device add_error
add_answer env device_id team_id task (err e) s = send_to_device device_id (error (add_error e)) s
add_answer env device_id team_id task (ok u) s =
    assign_task env team_id task (get_owner s.hasher s.ring task.url) s

-- The task that a device adds: `Task::new`, queued.
abbrev pub added_task : Env → (device_id team_id : ℕ) → String → Task
added_task env device_id team_id url =
    record (new_task env.fresh_id env.now url team_id device_id) { status = queued }

-- `handle_add_task`
unfoldable pub handle_add_task : Env → (device_id team_id : ℕ) → String → Server → Server
unfolding add_answer
handle_add_task env device_id team_id url s =
    let task = added_task env device_id team_id url in
    let (result, db) = create_task env.fault task team_id s.db in
    add_answer env device_id team_id task result (record s { db = db })

-- `tasks.into_iter().find(|t| t.id == task_id)` on the answer of the database.
unfoldable pub pick : ℕ → Result (List Task) → Option Task
pick task_id (err e) = none
pick task_id (ok tasks) = find (λ (t : Task). t.id == task_id) tasks

-- The task as a handler reads it.
unfoldable pub read_one : Option String → (team_id task_id : ℕ) → Server → Option Task
unfolding pick
read_one fault team_id task_id s = pick task_id (get_tasks_by_team fault team_id s.db)

abbrev pub claim : Env → ℕ → Task → Task
claim env device_id task = record task {
  status = claimed;
  claimed_by = some device_id;
  claimed_at = some env.now;
  version = bump task.version;
}

-- The write of a changed task; `tell` runs if the database takes it.
unfoldable pub store : Env → ℕ → Task → (Server → Server) → Server → Server
store env team_id task tell s = elim env.second_fault [
  | some e ↦ record s { db = (update_task (some e) task team_id s.db).1 }
  | none ↦ tell (record s { db = (update_task none task team_id s.db).1 })
]

-- What `handle_claim_task` does with the task that it has read.
unfoldable pub claim_read : Env → (device_id team_id task_id : ℕ) → Option Task → Server → Server
unfolding store send_to_device broadcast_to_team
claim_read env device_id team_id task_id none s =
    send_to_device device_id (error "Task not found") s
claim_read env device_id team_id task_id (some task) s =
    if status_eq task.status queued
    then store env team_id (claim env device_id task)
        (broadcast_to_team team_id (task_claimed task_id device_id)) s
    else send_to_device device_id (error "Task not available") s

-- `handle_claim_task`
unfoldable pub handle_claim_task : Env → (device_id team_id task_id : ℕ) → Server → Server
unfolding claim_read read_one
handle_claim_task env device_id team_id task_id s =
    claim_read env device_id team_id task_id (read_one env.fault team_id task_id s) s

-- A change of a task by its claimant; anybody else is ignored.
unfoldable pub by_claimant :
    Env → (device_id team_id : ℕ) → (Task → Task) → Option Task → Server → Server
unfolding store broadcast_to_team
by_claimant env device_id team_id change none s = s
by_claimant env device_id team_id change (some task) s =
    if opt_eq task.claimed_by (some device_id)
    then store env team_id (change task) (broadcast_to_team team_id (task_updated (change task))) s
    else s

abbrev pub advance : ℕ → Task → Task
advance progress task = record task { progress = progress; version = bump task.version }

-- `handle_update_progress`
unfoldable pub handle_update_progress :
    Env → (device_id team_id task_id progress : ℕ) → Server → Server
unfolding by_claimant read_one
handle_update_progress env device_id team_id task_id progress s =
    by_claimant env device_id team_id (advance progress) (read_one env.fault team_id task_id s) s

abbrev pub finish : String → ℕ → Task → Task
finish local_path file_size task = record task {
  status = complete;
  local_path = some local_path;
  file_size = some file_size;
  progress = f64_one;
  version = bump task.version;
}

-- `handle_task_complete`
unfoldable pub handle_task_complete :
    Env → (device_id team_id task_id : ℕ) → String → ℕ → Server → Server
unfolding by_claimant read_one
handle_task_complete env device_id team_id task_id local_path file_size s =
    by_claimant env device_id team_id (finish local_path file_size)
      (read_one env.fault team_id task_id s) s

-- The address that the owner of a file is looked up at.
unfoldable pub owner_ip : Result (Option Device) → String
owner_ip (ok (some owner)) = unwrap_or owner.public_ip "0.0.0.0"
owner_ip _ = "0.0.0.0"

unfoldable pub owner_port : Result (Option Device) → ℕ
owner_port (ok (some owner)) = unwrap_or owner.public_port 0
owner_port _ = 0

-- `p.file_name().unwrap_or_default()` of the path, if any.
unfoldable pub shown_name : Option String → String
shown_name none = ""
shown_name (some path) = unwrap_or (file_name path) ""

unfoldable pub file_answer : Env → (device_id task_id : ℕ) → Task → Option ℕ → Server → Server
unfolding send_to_device owner_ip owner_port shown_name
file_answer env device_id task_id task none s = s
file_answer env device_id task_id task (some owner_id) s =
    let owner = get_device env.second_fault owner_id s.db in
    send_to_device device_id
      (file_available task_id owner_id (owner_ip owner) (owner_port owner)
        (shown_name task.local_path) (unwrap_or task.file_size 0))
      s

unfoldable pub request_read : Env → (device_id task_id : ℕ) → Option Task → Server → Server
unfolding file_answer
request_read env device_id task_id none s = s
request_read env device_id task_id (some task) s =
    file_answer env device_id task_id task task.claimed_by s

-- `handle_request_file`
unfoldable pub handle_request_file : Env → (device_id team_id task_id : ℕ) → Server → Server
unfolding request_read read_one
handle_request_file env device_id team_id task_id s =
    request_read env device_id task_id (read_one env.fault team_id task_id s) s
