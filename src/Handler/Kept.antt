-- ===== src/Handler/Kept.antt =====
-- src/collaboration/server/handler.rs: the statements of the handlers, as what an invariant of the
-- database has to survive.
pub mod Teams
pub mod Tasks
pub mod Scan
use x_videos_dowloads.Prelude.{
  ℕ, ◌≡◌, refl, String, Bool, true, false, List, [], ◌∷◌, Option, none, some, Result, ok, err, find,
  retain, ◌==◌, opt_eq, arith, if◌then◌else◌, Bool-cases, Option-cases, inl, inr,
}
use x_videos_dowloads.Types.{
  Task, queued, status_eq, ClientMessage, register, join_team, heartbeat, add_task, claim_task,
  update_progress, task_complete, request_file, leave_team, nil_id,
}
use x_videos_dowloads.Types
use x_videos_dowloads.HashRing.{get_owner}
use x_videos_dowloads.Db.Schema.{Database}
use x_videos_dowloads.Db.Teams.{create_team, get_team_by_code}
use x_videos_dowloads.Db.Devices.{
  register_device, update_device_heartbeat, set_device_offline, get_all_team_ids,
}
use x_videos_dowloads.Db.Tasks.{create_task, update_task, release_task, get_claimed_tasks}
use x_videos_dowloads.Handler.State.{
  Server, Session, Env, get_session, register_client, update_session, unregister_client, send_where,
  send_to_device, broadcast_to_team, send_error, set_session_team,
}
use x_videos_dowloads.Handler.Teams.{
  handle_create_team, handle_join_team, handle_heartbeat, handle_leave_team, enter_team,
  placeholder, register_placeholder, create_answer, join_answer,
}
use x_videos_dowloads.Handler.Tasks.{
  handle_add_task, handle_claim_task, handle_update_progress, handle_task_complete,
  handle_request_file, added_task, assigned, assign_task, add_answer, claim, advance, finish, store,
  claim_read, by_claimant, request_read, file_answer, read_one,
}
use x_videos_dowloads.Handler.Timeouts.{
  check_all_task_timeouts, release_one, release_overdue, times_out, scan_answer,
  check_task_timeouts, check_teams, teams_answer,
}
use x_videos_dowloads.Handler.Dispatch.{
  dispatch, for_session, handle_message, note_register, on_text, Event, connected, received, closed,
  ticked, on_event, run,
}
use x_videos_dowloads.Handler.Reading.{stored}

-- How a handler changes the task that it has read, for the device of its session.
pub data Change (env : Env) (device_id : ℕ) (t : Task) : Task → Type 0 where
  claims : t.status ≡ queued → Change env device_id t (claim env device_id t)
  advances :
      (progress : ℕ)
      → opt_eq t.claimed_by (some device_id) ≡ true
      → Change env device_id t (advance progress t)
  finishes :
      (local_path : String) (file_size : ℕ)
      → opt_eq t.claimed_by (some device_id) ≡ true
      → Change env device_id t (finish local_path file_size t)

-- The statements of the handlers keep `Q`.
pub record IsKept (Q : Database → Type 0) : Type 0 where
  pub at_team :
      (fault : Option String) (id now : ℕ) (draw : ℕ → ℕ) (name : String) (db : Database)
      → Q db
      → Q (create_team fault id now draw name db).1
  pub at_device :
      (parses_ip : String → Bool) (fault : Option String) (now team_id : ℕ) (name : String)
      (db : Database)
      → Q db
      → Q (register_device parses_ip fault (placeholder now team_id name) db).1
  pub at_heartbeat :
      (fault : Option String) (now id : ℕ) (db : Database)
      → Q db
      → Q (update_device_heartbeat fault now id db).1
  pub at_offline :
      (fault : Option String) (id : ℕ) (db : Database) → Q db → Q (set_device_offline fault id db).1
  pub at_new_task :
      (fault : Option String) (env : Env) (device_id team_id : ℕ) (url : String) (db : Database)
      → Q db
      → Q (create_task fault (added_task env device_id team_id url) team_id db).1
  pub at_assign :
      (fault : Option String) (env : Env) (device_id team_id owner_id : ℕ) (url : String)
      (db : Database)
      → stored db env.fresh_id ≡ some (added_task env device_id team_id url)
      → Q db
      → Q
          (update_task fault
            (assigned env owner_id (added_task env device_id team_id url))
            team_id
            db).1
  pub at_change :
      (fault : Option String) (env : Env) (device_id team_id k : ℕ) (t u : Task) (s : Server)
      → read_one env.fault team_id k s ≡ some t
      → Change env device_id t u
      → Q s.db
      → Q (update_task fault u team_id s.db).1
  pub at_scan :
      (env : Env) (team_id : ℕ) (s : Server) → Q s.db → Q (check_task_timeouts env team_id s).db
