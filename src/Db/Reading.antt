-- ===== src/Db/Reading.antt =====
-- src/collaboration/server/db.rs: what the task queries read back is what was stored.
use x_videos_dowloads.Prelude.{
  ℕ, ◌≡◌, refl, ap, ◌∙◌, Bool, ◌&&◌, none, some, ok, map-id, retain, ◌==◌, str_eq, opt_eq,
}
use mathlib.Core.Path.{fun_ext}
use x_videos_dowloads.Types.{Task, TaskStatus, new, queued, claimed, complete, failed, status_eq}
use x_videos_dowloads.Db.Schema.{Database}
use x_videos_dowloads.Db.Tasks.{
  status_text, status_of_text, read_task, get_tasks_by_team, get_tasks_by_device, get_claimed_tasks,
}

-- Every status is read back from the text that it is stored as.
pub status_of_text-status_text : (s : TaskStatus) → status_of_text (status_text s) ≡ s
unfolding status_of_text status_text
status_of_text-status_text new = refl
status_of_text-status_text queued = refl
status_of_text-status_text claimed = refl
status_of_text-status_text complete = refl
status_of_text-status_text failed = refl

pub read_task-id : (t : Task) → read_task t ≡ t
unfolding read_task
read_task-id t =
    ap (λ (s : TaskStatus). record t { status = s }) (status_of_text-status_text t.status)

-- The text test of `WHERE status = 'Claimed'` is the test on the status.
pub claimed_text : (s : TaskStatus) → str_eq (status_text s) "Claimed" ≡ status_eq s claimed
unfolding status_text
claimed_text new = refl
claimed_text queued = refl
claimed_text claimed = refl
claimed_text complete = refl
claimed_text failed = refl

-- Where SQLite reports no error, the three queries return, unchanged and in order, the stored
-- tasks of the team, those that the device has claimed, and the claimed ones of the team.
pub task_queries :
    (id : ℕ) (db : Database)
    → (get_tasks_by_team none id db ≡ ok (retain (λ (t : Task). t.team_id == id) db.tasks))
      × (get_tasks_by_device none id db
          ≡ ok (retain (λ (t : Task). opt_eq t.claimed_by (some id)) db.tasks))
      × (get_claimed_tasks none id db
          ≡ ok (retain (λ (t : Task). t.team_id == id && status_eq t.status claimed) db.tasks))
unfolding get_tasks_by_team get_tasks_by_device get_claimed_tasks
task_queries id db = (
  ap ok (map-id read_task read_task-id _),
  ap ok (map-id read_task read_task-id _),
  ap ok (
      map-id read_task read_task-id _
      ∙ ap (λ (p : Task → Bool). retain p db.tasks)
          (fun_ext λ t. ap (◌&&◌ (t.team_id == id)) (claimed_text t.status))),
)
