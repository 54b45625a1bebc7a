-- ===== src/Handler/Kept/Teams.antt =====
-- src/collaboration/server/handler.rs: creating and joining a team keep an invariant.
use x_videos_dowloads.Prelude.{ℕ, ◌≡◌, refl, String, Option, none, some, Result, ok, err, arith}
use x_videos_dowloads.Types.{
  Task, queued, status_eq, ClientMessage, register, join_team, heartbeat, add_task, claim_task,
  update_progress, task_complete, request_file, leave_team, nil_id,
}
use x_videos_dowloads.Types
use x_videos_dowloads.Db.Schema.{Database}
use x_videos_dowloads.Handler.State.{Server, Session, Env, get_session, send_error}
use x_videos_dowloads.Handler.Teams.{enter_team, register_placeholder, create_answer, join_answer}
use x_videos_dowloads.Handler.Kept.{IsKept}

module _ (Q : Database → Type 0) (kept : IsKept Q) where
  register_placeholder-keeps :
      (env : Env) (team_id : ℕ) (name : String) (s : Server)
      → Q s.db
      → Q (register_placeholder env team_id name s).db
  unfolding register_placeholder
  register_placeholder-keeps env team_id name s q =
      kept.at_device env.parses_ip env.second_fault env.now team_id name s.db q

  enter_team-db :
      (key team_id : ℕ) (m : Types.ServerMessage) (o : Option Session) (s : Server)
      → (enter_team key team_id m o s).db ≡ s.db
  unfolding enter_team
  enter_team-db key team_id m none s = refl
  enter_team-db key team_id m (some x) s = refl

  send_error-db : (key : ℕ) (text : String) (s : Server) → (send_error key text s).db ≡ s.db
  unfolding send_error
  send_error-db key text s = ground arith

  enter_team-keeps :
      (env : Env) (key team_id : ℕ) (m : Types.ServerMessage) (name : String) (o : Option Session)
      (s : Server)
      → Q s.db
      → Q (register_placeholder env team_id name (enter_team key team_id m o s)).db
  enter_team-keeps env key team_id m name o s q =
      register_placeholder-keeps env team_id name _ (rw (enter_team-db key team_id m o s) q)

  pub create_answer-keeps :
      (env : Env) (key : ℕ) (name : String) (r : Result Types.Team) (s : Server)
      → Q s.db
      → Q (create_answer env key name r s).db
  unfolding create_answer
  create_answer-keeps env key name (ok team) s q =
      enter_team-keeps env key team.id (Types.team_created team) name (get_session key s) s q
  create_answer-keeps env key name (err e) s q = rw (send_error-db key _ s) q

  pub join_answer-keeps :
      (env : Env) (key : ℕ) (r : Result (Option Types.Team)) (s : Server)
      → Q s.db
      → Q (join_answer env key r s).db
  unfolding join_answer
  join_answer-keeps env key (ok (some team)) s q =
      enter_team-keeps env key team.id (Types.team_joined team) "NewDevice" (get_session key s) s q
  join_answer-keeps env key (ok none) s q = rw (send_error-db key _ s) q
  join_answer-keeps env key (err e) s q = rw (send_error-db key _ s) q
