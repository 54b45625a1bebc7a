-- ===== src/Queue.antt =====
-- src/collaboration/client/queue.rs: the task list that a client keeps in a file. The JSON of a list
-- is a value of `Stored`; `float` says what becomes of the progress of a task that is written and
-- read back: the number that is read, or none where it was written as `null`.
pub mod Steps
pub mod Urls
pub mod Saved
pub mod Tests
use x_videos_dowloads.Prelude.{
  ℕ, String, Bool, List, [], ◌∷◌, ◌++◌, Option, none, some, Result, ok, err, any, find, retain,
  update_where, str_eq, ◌==◌, if◌then◌else◌, ◌>>=◌,
}
use x_videos_dowloads.Types.{Task, new_task, new, queued, claimed, complete, status_eq}

-- What the file holds: the JSON of a list of tasks, or some other text.
pub data Stored : Type 0 where
  json : List Task → Stored
  other : String → Stored

-- What a write meets: no error, an error before the file is touched, or one after it was cut off,
-- which leaves some text that is no list.
pub data Fault : Type 0 where
  fine : Fault
  unwritten : (message : String) → Fault
  cut_off : (message text : String) → Fault

pub record LocalQueue : Type 0 where
  pub tasks : List Task
  pub team_id : ℕ
  pub device_id : ℕ
  pub state_file : Option Stored

-- `serde_json::from_str`, of the tasks; a progress that is `null` is an error.
unfoldable pub read_tasks : (float : ℕ → Option ℕ) → List Task → Option (List Task)
read_tasks float [] = some []
read_tasks float (t ∷ ts) = do
  progress ← float t.progress
  rest ← read_tasks float ts
  some (record t { progress = progress } ∷ rest)

abbrev pub parse_tasks : (float : ℕ → Option ℕ) → Stored → Option (List Task)
parse_tasks float (json tasks) = read_tasks float tasks
parse_tasks float (other text) = none

-- The queue with the tasks that were read.
abbrev pub loaded : Option (List Task) → LocalQueue → Result LocalQueue
loaded none q = err "JSON error"
loaded (some tasks) q = ok (record q { tasks = tasks })

-- `LocalQueue::load`
unfoldable pub load : (float : ℕ → Option ℕ) → LocalQueue → Result LocalQueue
unfolding read_tasks
load float q = elim q.state_file [ none ↦ ok q | some stored ↦ loaded (parse_tasks float stored) q ]

-- `LocalQueue::new` on a state file, if there is one.
unfoldable pub open_queue :
    (float : ℕ → Option ℕ) (device_id team_id : ℕ) → Option Stored → Result LocalQueue
unfolding load
open_queue float device_id team_id state_file =
    load float
      (record { tasks = []; team_id = team_id; device_id = device_id; state_file = state_file })

-- `LocalQueue::save`; the tasks in memory stay changed where it fails.
unfoldable pub save {ℓ} : {A : Type ℓ} → Fault → A → LocalQueue → Result A × LocalQueue
save fine a q = (ok a, record q { state_file = some (json q.tasks) })
save (unwritten message) a q = (err message, q)
save (cut_off message text) a q = (err message, record q { state_file = some (other text) })

-- `LocalQueue::add_task`
unfoldable pub add_task :
    Fault → (fresh_id now : ℕ) → String → LocalQueue → Result Task × LocalQueue
unfolding save
add_task fault fresh_id now url q =
    let task = new_task fresh_id now url q.team_id q.device_id in
    if any (λ (t : Task). str_eq t.url url) q.tasks
    then (err "URL 已存在", q)
    else save fault task (record q { tasks = q.tasks ++ task ∷ [] })

-- The first task with the identifier: `iter_mut().find(…)`, changed where it stands.
unfoldable pub change_first : ℕ → (Task → Task) → List Task → List Task
change_first task_id f [] = []
change_first task_id f (t ∷ ts) =
    let rest = change_first task_id f ts in if t.id == task_id then f t ∷ ts else t ∷ rest

-- A change of a task that is there.
unfoldable pub change_task : Fault → ℕ → (Task → Task) → LocalQueue → Result (Unit {0}) × LocalQueue
unfolding save change_first
change_task fault task_id f q = save fault tt (record q { tasks = change_first task_id f q.tasks })

abbrev pub take_over : (now device_id : ℕ) → Task → Task
take_over now device_id task = record task {
  status = claimed;
  claimed_by = some device_id;
  claimed_at = some now;
}

-- `LocalQueue::claim_task`
unfoldable pub claim_task : Fault → (now task_id : ℕ) → LocalQueue → Result (Unit {0}) × LocalQueue
unfolding change_task
claim_task fault now task_id q = elim (find (λ (t : Task). t.id == task_id) q.tasks) [
  | none ↦ (err "任务不存在", q)
  | some task ↦
      if status_eq task.status queued
      then change_task fault task_id (take_over now q.device_id) q
      else (err "任务不可认领", q)
]

-- A change of a task, whatever its status.
unfoldable pub change_any : Fault → ℕ → (Task → Task) → LocalQueue → Result (Unit {0}) × LocalQueue
unfolding change_task
change_any fault task_id f q = elim (find (λ (t : Task). t.id == task_id) q.tasks) [
  | none ↦ (err "任务不存在", q)
  | some task ↦ change_task fault task_id f q
]

-- `LocalQueue::update_progress`
unfoldable pub update_progress :
    Fault → (task_id progress : ℕ) → LocalQueue → Result (Unit {0}) × LocalQueue
unfolding change_any
update_progress fault task_id progress q =
    change_any fault task_id (λ t. record t { progress = progress }) q

-- `LocalQueue::mark_complete`
unfoldable pub mark_complete : Fault → ℕ → String → ℕ → LocalQueue → Result (Unit {0}) × LocalQueue
unfolding change_any
mark_complete fault task_id local_path file_size q =
    change_any fault task_id
      (λ t. record t {
        status = complete;
        local_path = some local_path;
        file_size = some file_size;
      })
      q

-- `LocalQueue::update_status_to_queued`
unfoldable pub update_status_to_queued : Fault → ℕ → LocalQueue → Result (Unit {0}) × LocalQueue
unfolding change_any
update_status_to_queued fault task_id q =
    change_any fault task_id (λ t. record t { status = queued }) q

-- `LocalQueue::get_task`
unfoldable pub get_task : ℕ → LocalQueue → Option Task
get_task task_id q = find (λ (t : Task). t.id == task_id) q.tasks

-- The local tasks that the server does not know join its list, one after the other.
unfoldable pub merge : List Task → List Task → List Task
merge [] tasks = tasks
merge (task ∷ local_new) tasks =
    merge local_new
      (if any (λ (t : Task). str_eq t.url task.url) tasks then tasks else tasks ++ task ∷ [])

-- `LocalQueue::sync_from_server`
unfoldable pub sync_from_server : Fault → List Task → LocalQueue → Result (Unit {0}) × LocalQueue
unfolding merge save
sync_from_server fault tasks q =
    save fault tt
      (record q { tasks = merge (retain (λ (t : Task). status_eq t.status new) q.tasks) tasks })

-- An operation that changes the queue.
pub data Op : Type 0 where
  adds : (fresh_id now : ℕ) (url : String) → Op
  claims : (now task_id : ℕ) → Op
  progresses : (task_id progress : ℕ) → Op
  completes : (task_id : ℕ) (local_path : String) (file_size : ℕ) → Op
  queues : (task_id : ℕ) → Op
  syncs : (tasks : List Task) → Op

-- The queue after an operation.
unfoldable pub after : Fault → Op → LocalQueue → LocalQueue
after fault (adds id now url) q = (add_task fault id now url q).1
after fault (claims now id) q = (claim_task fault now id q).1
after fault (progresses id progress) q = (update_progress fault id progress q).1
after fault (completes id path size) q = (mark_complete fault id path size q).1
after fault (queues id) q = (update_status_to_queued fault id q).1
after fault (syncs tasks) q = (sync_from_server fault tasks q).1

unfoldable pub run_queue : List (Fault × Op) → LocalQueue → LocalQueue
unfolding after
run_queue [] q = q
run_queue ((fault, op) ∷ ops) q = run_queue ops (after fault op q)
