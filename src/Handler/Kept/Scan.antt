-- ===== src/Handler/Kept/Scan.antt =====
-- src/collaboration/server/handler.rs: what each release keeps, a scan keeps.
use x_videos_dowloads.Prelude.{
  ℕ, Bool, true, false, List, [], ◌∷◌, none, Result, ok, err, if◌then◌else◌, Option-cases, inl, inr,
}
use x_videos_dowloads.Types.{Task}
use x_videos_dowloads.Db.Schema.{Database}
use x_videos_dowloads.Db.Tasks.{release_task, get_claimed_tasks}
use x_videos_dowloads.Handler.State.{Server, Env}
use x_videos_dowloads.Handler.Timeouts.{
  release_one, release_overdue, times_out, scan_answer, check_task_timeouts,
}

module _ (Q : Database → Type 0)
    (at_release : (id : ℕ) (db : Database) → Q db → Q (release_task none id db).1) where
  release_one-keeps :
      (env : Env) (team_id : ℕ) (t : Task) (s : Server)
      → Q s.db
      → Q (release_one env team_id t s).db
  unfolding release_one
  release_one-keeps env team_id t s q = elim (Option-cases (env.release_fault t.id)) [
    | inl up ↦ rw (up, release_one) (at_release t.id s.db q)
    | inr (m, down) ↦ rw (down, release_one) q
  ]

  either-keeps : (b : Bool) (x y : Server) → Q x.db → Q y.db → Q (if b then x else y).db
  either-keeps true x y p q = p
  either-keeps false x y p q = q

  release_overdue-keeps :
      (env : Env) (team_id : ℕ) (tasks : List Task) (s : Server)
      → Q s.db
      → Q (release_overdue env team_id tasks s).db
  unfolding release_overdue
  release_overdue-keeps env team_id [] s q = q
  release_overdue-keeps env team_id (t ∷ ts) s q = release_overdue-keeps env team_id ts _ (
      either-keeps (times_out env.now t.claimed_at t.progress) _ s
        (release_one-keeps env team_id t s q) q)

  scan_answer-keeps :
      (env : Env) (team_id : ℕ) (r : Result (List Task)) (s : Server)
      → Q s.db
      → Q (scan_answer env team_id r s).db
  unfolding scan_answer
  scan_answer-keeps env team_id (ok tasks) s q = release_overdue-keeps env team_id tasks s q
  scan_answer-keeps env team_id (err e) s q = q

  pub check_task_timeouts-keeps :
      (env : Env) (team_id : ℕ) (s : Server) → Q s.db → Q (check_task_timeouts env team_id s).db
  unfolding check_task_timeouts
  check_task_timeouts-keeps env team_id s q =
      scan_answer-keeps env team_id (get_claimed_tasks (env.scan_fault team_id) team_id s.db) s q
