-- ===== src/Handler/Timeouts.antt =====
-- src/collaboration/server/handler.rs: the release of claimed tasks that take too long.
use x_videos_dowloads.Prelude.{
  ℕ, ◌-◌, ◌/◌, Bool, ◌&&◌, List, [], ◌∷◌, Option, none, some, Result, ok, err, leb, if◌then◌else◌,
}
use x_videos_dowloads.Float.{f64_one, f64_lt}
use x_videos_dowloads.Types.{Task, task_released}
use x_videos_dowloads.Db.Devices.{get_all_team_ids}
use x_videos_dowloads.Db.Tasks.{get_claimed_tasks, release_task}
use x_videos_dowloads.Handler.State.{Server, Env, broadcast_to_team}

-- A minute in nanoseconds.
abbrev pub minute : ℕ
minute = 60_000_000_000

-- `elapsed.num_minutes() >= 5 && task.progress < 1.0`
unfoldable pub is_overdue : (now claimed_at progress : ℕ) → Bool
is_overdue now claimed_at progress = leb 5 ((now - claimed_at) / minute) && f64_lt progress f64_one

-- The two tests on a task of the loop.
unfoldable pub times_out : ℕ → Option ℕ → ℕ → Bool
unfolding is_overdue
times_out now none progress = Bool.false
times_out now (some claimed_at) progress = is_overdue now claimed_at progress

-- The release of one task; where the database fails, the loop goes on.
unfoldable pub release_one : Env → (team_id : ℕ) → Task → Server → Server
unfolding broadcast_to_team
release_one env team_id task s = elim (env.release_fault task.id) [
  | some e ↦ s
  | none ↦
      broadcast_to_team team_id (task_released task.id "timeout")
        (record s { db = (release_task none task.id s.db).1 })
]

unfoldable pub release_overdue : Env → (team_id : ℕ) → List Task → Server → Server
unfolding times_out release_one
release_overdue env team_id [] s = s
release_overdue env team_id (task ∷ tasks) s =
    release_overdue env team_id tasks (
      if times_out env.now task.claimed_at task.progress then release_one env team_id task s else s)

unfoldable pub scan_answer : Env → (team_id : ℕ) → Result (List Task) → Server → Server
unfolding release_overdue
scan_answer env team_id (err e) s = s
scan_answer env team_id (ok tasks) s = release_overdue env team_id tasks s

-- `check_task_timeouts`
unfoldable pub check_task_timeouts : Env → (team_id : ℕ) → Server → Server
unfolding scan_answer
check_task_timeouts env team_id s =
    scan_answer env team_id (get_claimed_tasks (env.scan_fault team_id) team_id s.db) s

unfoldable pub check_teams : Env → List ℕ → Server → Server
unfolding check_task_timeouts
check_teams env [] s = s
check_teams env (team_id ∷ ids) s = check_teams env ids (check_task_timeouts env team_id s)

unfoldable pub teams_answer : Env → Result (List ℕ) → Server → Server
unfolding check_teams
teams_answer env (err e) s = s
teams_answer env (ok ids) s = check_teams env ids s

-- `check_all_task_timeouts`
unfoldable pub check_all_task_timeouts : Env → Server → Server
unfolding teams_answer
check_all_task_timeouts env s = teams_answer env (get_all_team_ids env.fault s.db) s
