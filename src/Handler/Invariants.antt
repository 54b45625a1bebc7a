-- ===== src/Handler/Invariants.antt =====
-- src/collaboration/server/handler.rs: an invariant of the database that each statement of the
-- handlers keeps holds after every event, and so in every history.
use x_videos_dowloads.Prelude.{ℕ, ◌≡◌, refl, List, [], ◌∷◌, Option, none, some, Result, ok, err}
use x_videos_dowloads.Types.{
  Task, queued, status_eq, ClientMessage, register, join_team, heartbeat, add_task, claim_task,
  update_progress, task_complete, request_file, leave_team, nil_id,
}
use x_videos_dowloads.Types
use x_videos_dowloads.Db.Schema.{Database}
use x_videos_dowloads.Db.Teams.{get_team_by_code}
use x_videos_dowloads.Db.Devices.{get_all_team_ids}
use x_videos_dowloads.Handler.State.{
  Server, Session, Env, register_client, update_session, unregister_client,
}
use x_videos_dowloads.Handler.Teams.{
  handle_create_team, handle_join_team, handle_heartbeat, handle_leave_team,
}
use x_videos_dowloads.Handler.Tasks.{
  handle_add_task, handle_claim_task, handle_update_progress, handle_task_complete,
  handle_request_file, added_task, advance, finish, read_one,
}
use x_videos_dowloads.Handler.Timeouts.{
  check_all_task_timeouts, check_task_timeouts, check_teams, teams_answer,
}
use x_videos_dowloads.Handler.Dispatch.{
  dispatch, for_session, handle_message, note_register, on_text, Event, connected, received, closed,
  ticked, on_event, run,
}
use x_videos_dowloads.Db.NewTask.{create_task-stored}
use x_videos_dowloads.Handler.Kept.{advances, finishes, IsKept}
use x_videos_dowloads.Handler.Kept.Teams.{create_answer-keeps, join_answer-keeps}
use x_videos_dowloads.Handler.Kept.Tasks.{
  add_answer-keeps, claim_read-keeps, by_claimant-keeps, request_read-db,
}

module _ (Q : Database → Type 0) (kept : IsKept Q) where
  check_teams-keeps :
      (env : Env) (ids : List ℕ) (s : Server) → Q s.db → Q (check_teams env ids s).db
  unfolding check_teams
  check_teams-keeps env [] s q = q
  check_teams-keeps env (id ∷ ids) s q =
      check_teams-keeps env ids (check_task_timeouts env id s) (kept.at_scan env id s q)

  teams_answer-keeps :
      (env : Env) (r : Result (List ℕ)) (s : Server) → Q s.db → Q (teams_answer env r s).db
  unfolding teams_answer
  teams_answer-keeps env (ok ids) s q = check_teams-keeps env ids s q
  teams_answer-keeps env (err e) s q = q

  dispatch-keeps :
      (env : Env) (key device_id team_id : ℕ) (msg : ClientMessage) (s : Server)
      → Q s.db
      → Q (dispatch env key device_id team_id msg s).db
  unfolding dispatch handle_create_team handle_join_team handle_heartbeat handle_leave_team
      handle_add_task handle_claim_task handle_update_progress handle_task_complete
      handle_request_file
  dispatch-keeps env key d tm (register _ _ _) s q = q
  dispatch-keeps env key d tm (Types.create_team name) s q =
      create_answer-keeps Q kept env key name _ _
        (kept.at_team env.fault env.fresh_id env.now env.draw name s.db q)
  dispatch-keeps env key d tm (join_team code) s q =
      join_answer-keeps Q kept env key (get_team_by_code env.fault code s.db) s q
  dispatch-keeps env key d tm (heartbeat _) s q = kept.at_heartbeat env.fault env.now d s.db q
  dispatch-keeps env key d tm (add_task url) s q =
      add_answer-keeps Q kept env d tm url _ _
        (create_task-stored env.fault (added_task env d tm url) tm s.db)
        (kept.at_new_task env.fault env d tm url s.db q)
  dispatch-keeps env key d tm (claim_task k) s q =
      claim_read-keeps Q kept env d tm k (read_one env.fault tm k s) s refl q
  dispatch-keeps env key d tm (update_progress k p) s q =
      by_claimant-keeps Q kept env d tm k (advance p) (read_one env.fault tm k s) s
        (λ t own. advances p own) refl q
  dispatch-keeps env key d tm (task_complete k path size) s q =
      by_claimant-keeps Q kept env d tm k (finish path size) (read_one env.fault tm k s) s
        (λ t own. finishes path size own) refl q
  dispatch-keeps env key d tm (request_file k) s q =
      rw (request_read-db Q kept env d k (read_one env.fault tm k s) s) q
  dispatch-keeps env key d tm (leave_team _) s q = kept.at_offline env.fault d s.db q

  for_session-keeps :
      (env : Env) (key : ℕ) (msg : ClientMessage) (o : Option Session) (s : Server)
      → Q s.db
      → Q (for_session env key msg o s).db
  unfolding for_session
  for_session-keeps env key msg none s q = q
  for_session-keeps env key msg (some x) s q = dispatch-keeps env key x.device_id x.team_id msg s q

  note_register-db :
      (key : ℕ) (msg : ClientMessage) (s : Server) → (note_register key msg s).db ≡ s.db
  unfolding note_register update_session
  note_register-db key (register _ _ _) s = refl
  note_register-db key _ s = refl

  -- Whatever happens to the server, its database keeps `Q`.
  pub on_event-keeps : (env : Env) (e : Event) (s : Server) → Q s.db → Q (on_event env e s).db
  unfolding on_event register_client unregister_client on_text handle_message
      check_all_task_timeouts
  on_event-keeps env (connected key d tm) s q = q
  on_event-keeps env (received key msg) s q =
      for_session-keeps env key msg _ (note_register key msg s) (rw (note_register-db key msg s) q)
  on_event-keeps env (closed key) s q = q
  on_event-keeps env ticked s q = teams_answer-keeps env (get_all_team_ids env.fault s.db) s q

  pub run-keeps : (es : List (Env × Event)) (s : Server) → Q s.db → Q (run es s).db
  unfolding run
  run-keeps [] s q = q
  run-keeps ((env, e) ∷ es) s q = run-keeps es (on_event env e s) (on_event-keeps env e s q)
