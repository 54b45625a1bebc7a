-- ===== src/Handler/Release.antt =====
-- src/collaboration/server/handler.rs: exactly which tasks a scan of a team releases.
use x_videos_dowloads.Prelude.{
  ℕ, ◌+◌, ◌*◌, leb, ◌≡◌, ap, String, Bool, false, not, ◌&&◌, List, Option, none, some, ◌==◌, any,
  is_some,
}
use x_videos_dowloads.Float.{f64_lt, f64_one}
use x_videos_dowloads.Types.{Task, claimed, status_eq}
use x_videos_dowloads.Db.Tasks.{get_claimed_tasks}
use x_videos_dowloads.Handler.State.{Server, Env}
use x_videos_dowloads.Handler.Timeouts.{minute, scan_answer, check_task_timeouts}

-- The task was claimed five minutes ago or more, and its progress is below 1.
abbrev pub is_due : ℕ → Task → Bool
is_due now t = elim t.claimed_at [
  | none ↦ false
  | some claimed_at ↦ leb (claimed_at + 5 * minute) now && f64_lt t.progress f64_one
]

-- The loop releases this task if it comes to it.
abbrev pub goes : Env → Task → Bool
goes env t = is_due env.now t && not (is_some (env.release_fault t.id))

-- The row of a task that the loop releases.
abbrev hit : Env → List Task → Task → Bool
hit env ts x = any (λ (t : Task). (x.id == t.id) && goes env t) ts

-- What a scan of a team releases: its claimed tasks that were claimed five minutes ago or more and
-- have not reached progress 1, save those whose statement SQLite refuses.
abbrev pub is_released : Env → ℕ → Task → Bool
is_released env team_id t = (t.team_id == team_id && status_eq t.status claimed) && goes env t

-- A scan whose query fails does nothing.
pub check_task_timeouts-fault :
    (env : Env) (team_id : ℕ) (s : Server) (m : String)
    → env.scan_fault team_id ≡ some m
    → check_task_timeouts env team_id s ≡ s
unfolding check_task_timeouts get_claimed_tasks
check_task_timeouts-fault env team_id s m down =
    ap (λ (f : Option String). scan_answer env team_id (get_claimed_tasks f team_id s.db) s) down
