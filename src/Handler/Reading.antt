-- ===== src/Handler/Reading.antt =====
-- src/collaboration/server/handler.rs: the read of a task, and what it gives after a write.
use x_videos_dowloads.Prelude.{
  ℕ, ◌≡◌, refl, ap, ◌∙◌, String, true, Option, none, some, find, find-holds, find-update_where,
  retain, retain-All, retain-update_where, update_found, find-All, All-retain, subst, sym,
  Distinct-find, ◌==◌, arith,
}
use x_videos_dowloads.Types.{Task}
use x_videos_dowloads.Db.Schema.{Database}
use x_videos_dowloads.Db.Tasks.{get_tasks_by_team, update_task, overwrite}
use x_videos_dowloads.Db.Reading.{task_queries}
use x_videos_dowloads.Db.Integrity.{IsSound}
use x_videos_dowloads.Handler.State.{Server}
use x_videos_dowloads.Handler.Tasks.{pick, read_one}

-- The stored task with this identifier.
abbrev pub stored : Database → ℕ → Option Task
stored db k = find (λ (t : Task). t.id == k) db.tasks

pub read_one_lem :
    (team_id k : ℕ) (s : Server)
    → read_one none team_id k s
      ≡ find (λ (t : Task). t.id == k) (retain (λ (t : Task). t.team_id == team_id) s.db.tasks)
unfolding read_one
read_one_lem team_id k s = ap (pick k) (task_queries team_id s.db).0

-- A read that succeeds met no error of the database.
pub read_one-none-fault :
    (fault : Option String) (team_id k : ℕ) (s : Server) (t : Task)
    → read_one fault team_id k s ≡ some t
    → read_one none team_id k s ≡ some t
unfolding read_one get_tasks_by_team
read_one-none-fault none team_id k s t e = e
read_one-none-fault (some m) team_id k s t e = cc

-- What is read has the identifier and belongs to the team.
pub read_one-found :
    (team_id k : ℕ) (s : Server) (t : Task)
    → read_one none team_id k s ≡ some t
    → (t.id ≡ k) × (t.team_id ≡ team_id)
read_one-found team_id k s t e = (
  ground (
    arith,
    find-holds (λ (x : Task). x.id == k) (retain (λ (x : Task). x.team_id == team_id) s.db.tasks) t
        (rw (read_one_lem team_id k s) at e),
  ),
  ground (
    arith,
    find-All (λ (x : Task). (x.team_id == team_id) ≡ true) _ _ t
        (retain-All (λ (x : Task). x.team_id == team_id) s.db.tasks)
        (rw (read_one_lem team_id k s) at e),
  ),
)

-- With distinct identifiers the task that is read is the stored one.
pub read_one-stored :
    (team_id k : ℕ) (s : Server) (t : Task)
    → IsSound s.db
    → read_one none team_id k s ≡ some t
    → stored s.db k ≡ some t
read_one-stored team_id k s t sound e =
    let unique = Distinct-find (λ (x : Task). x.id) s.db.tasks sound.task_ids_distinct in
    let kept = All-retain _ (λ (x : Task). x.team_id == team_id) s.db.tasks unique in
    let found =
      find-All _ (λ (x : Task). x.id == k) _ t kept (rw (read_one_lem team_id k s) at e) in
    subst (λ (j : ℕ). stored s.db j ≡ some t) (read_one-found team_id k s t e).0 found

-- A read after the write of a task gives the written columns.
pub read_one-update_task :
    (team_id other k : ℕ) (s : Server) (task : Task)
    → read_one none team_id k (record s { db = (update_task none task other s.db).1 })
      ≡ update_found (λ (t : Task). t.id == task.id) (overwrite task) (read_one none team_id k s)
unfolding update_task
read_one-update_task team_id other k s task =
    let q = λ (t : Task). t.id == task.id in
    read_one_lem team_id k _
    ∙ ap (find (λ (t : Task). t.id == k)) (
        retain-update_where (λ (t : Task). t.team_id == team_id) q (overwrite task) (λ t. refl)
          s.db.tasks)
    ∙ find-update_where (λ (t : Task). t.id == k) q (overwrite task) (λ t. refl) _
    ∙ ap (update_found q (overwrite task)) (sym (read_one_lem team_id k s))
