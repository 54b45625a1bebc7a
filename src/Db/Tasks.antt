-- ===== src/Db/Tasks.antt =====
-- src/collaboration/server/db.rs: the tasks.
use x_videos_dowloads.Prelude.{
  ◌%◌, ◌^◌, ℕ, ◌+◌, String, ◌&&◌, List, [], ◌∷◌, ◌++◌, map, Option, none, some, Result, ok, err,
  any, retain, update_where, ◌==◌, str_eq, opt_eq, contains, if◌then◌else◌,
}
use x_videos_dowloads.Float.{f64_zero}
use x_videos_dowloads.Types.{Task, TaskStatus, new, queued, claimed, complete, failed}
use x_videos_dowloads.Db.Schema.{Database, query, execute, breaks_foreign_key}

-- `format!("{:?}", task.status)`
unfoldable pub status_text : TaskStatus → String
status_text new = "New"
status_text queued = "Queued"
status_text claimed = "Claimed"
status_text complete = "Complete"
status_text failed = "Failed"

-- The `match` on the column; any other text reads as `New`.
unfoldable pub status_of_text : String → TaskStatus
status_of_text text =
    if str_eq text "New"
    then new
    else if str_eq text "Queued"
    then queued
    else if str_eq text "Claimed"
    then claimed
    else if str_eq text "Complete"
    then complete
    else if str_eq text "Failed"
    then failed
    else new

-- A row, as the closures of `query_map` read it back.
unfoldable pub read_task : Task → Task
unfolding status_text status_of_text
read_task row = record row { status = status_of_text (status_text row.status) }

-- The row goes in unless its identifier or its URL is taken, or its team is unknown.
unfoldable pub insert_task_row : Option String → Task → Database → Result (Unit {0}) × Database
insert_task_row (some message) row db = (err message, db)
insert_task_row none row db =
    if any (λ (t : Task). t.id == row.id) db.tasks
    then (err "UNIQUE constraint failed: tasks.id", db)
    else if any (λ (t : Task). str_eq t.url row.url) db.tasks
    then (err "UNIQUE constraint failed: tasks.url", db)
    else if breaks_foreign_key row.team_id db
    then (err "FOREIGN KEY constraint failed", db)
    else (ok tt, record db { tasks = db.tasks ++ row ∷ [] })

-- The `match result` of `create_task`.
unfoldable pub name_conflict : Result (Unit {0}) → Result (Unit {0})
name_conflict (ok u) = ok u
name_conflict (err message) =
    if contains message "UNIQUE constraint failed" then err "URL already exists" else err message

-- `Database::create_task`
unfoldable pub create_task : Option String → Task → ℕ → Database → Result (Unit {0}) × Database
unfolding insert_task_row name_conflict
create_task fault task team_id db =
    let (result, after) = insert_task_row fault (record task { team_id = team_id }) db in
    (name_conflict result, after)

-- The columns that `update_task` writes.
abbrev pub overwrite : Task → Task → Task
overwrite task row = record row {
  status = task.status;
  claimed_by = task.claimed_by;
  claimed_at = task.claimed_at;
  progress = task.progress;
  local_path = task.local_path;
  file_size = task.file_size;
  version = task.version;
}

-- `Database::update_task`, which ignores its team.
unfoldable pub update_task : Option String → Task → ℕ → Database → Result (Unit {0}) × Database
update_task fault task team_id db =
    execute fault
      (record db { tasks = update_where (λ (t : Task). t.id == task.id) (overwrite task) db.tasks })
      db

-- `Database::get_tasks_by_team`
unfoldable pub get_tasks_by_team : Option String → ℕ → Database → Result (List Task)
unfolding read_task
get_tasks_by_team fault team_id db =
    query fault (map read_task (retain (λ (t : Task). t.team_id == team_id) db.tasks))

-- `Database::get_tasks_by_device`
unfoldable pub get_tasks_by_device : Option String → ℕ → Database → Result (List Task)
unfolding read_task
get_tasks_by_device fault device_id db =
    query fault
      (map read_task (retain (λ (t : Task). opt_eq t.claimed_by (some device_id)) db.tasks))

-- `Database::get_claimed_tasks`
unfoldable pub get_claimed_tasks : Option String → ℕ → Database → Result (List Task)
unfolding read_task status_text
get_claimed_tasks fault team_id db = query fault (
    map read_task (
      retain (λ (t : Task). t.team_id == team_id && str_eq (status_text t.status) "Claimed")
        db.tasks))

-- The columns that `release_task` writes; SQLite adds on the 64 bits of the column, whose greatest
-- number, 2^63 - 1, a version does not reach by steps of one.
abbrev pub release : Task → Task
release row = record row {
  status = queued;
  claimed_by = none;
  claimed_at = none;
  progress = f64_zero;
  version = (row.version + 1) % 2 ^ 64;
}

-- `Database::release_task`
unfoldable pub release_task : Option String → ℕ → Database → Result (Unit {0}) × Database
release_task fault task_id db =
    execute fault
      (record db { tasks = update_where (λ (t : Task). t.id == task_id) release db.tasks }) db
