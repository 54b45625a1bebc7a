-- ===== src/Handler/Dispatch.antt =====
-- src/collaboration/server/handler.rs (`handle_message`) and the connection loop of
-- src/collaboration/server/ws.rs: what an event does to the server.
use x_videos_dowloads.Prelude.{ℕ, List, [], ◌∷◌, Option, none, some}
use x_videos_dowloads.Types.{
  ClientMessage, register, create_team, join_team, heartbeat, add_task, claim_task, update_progress,
  task_complete, request_file, leave_team,
}
use x_videos_dowloads.Handler.State.{
  Server, Session, Env, get_session, register_client, update_session, unregister_client,
}
use x_videos_dowloads.Handler.Teams.{
  handle_create_team, handle_join_team, handle_heartbeat, handle_leave_team,
}
use x_videos_dowloads.Handler.Tasks.{
  handle_add_task, handle_claim_task, handle_update_progress, handle_task_complete,
  handle_request_file,
}
use x_videos_dowloads.Handler.Timeouts.{check_all_task_timeouts}

-- The `match msg` of `handle_message`, for the device and team of the session.
unfoldable pub dispatch : Env → (key device_id team_id : ℕ) → ClientMessage → Server → Server
dispatch env key device_id team_id (register d t name) s = s
dispatch env key device_id team_id (create_team name) s = handle_create_team env key name s
dispatch env key device_id team_id (join_team code) s = handle_join_team env key code s
dispatch env key device_id team_id (heartbeat d) s = handle_heartbeat env device_id s
dispatch env key device_id team_id (add_task url) s = handle_add_task env device_id team_id url s
dispatch env key device_id team_id (claim_task task_id) s =
    handle_claim_task env device_id team_id task_id s
dispatch env key device_id team_id (update_progress task_id progress) s =
    handle_update_progress env device_id team_id task_id progress s
dispatch env key device_id team_id (task_complete task_id local_path file_size) s =
    handle_task_complete env device_id team_id task_id local_path file_size s
dispatch env key device_id team_id (request_file task_id) s =
    handle_request_file env device_id team_id task_id s
dispatch env key device_id team_id (leave_team d) s = handle_leave_team env device_id s

unfoldable pub for_session : Env → ℕ → ClientMessage → Option Session → Server → Server
unfolding dispatch
for_session env key msg none s = s
for_session env key msg (some x) s = dispatch env key x.device_id x.team_id msg s

-- `handle_message`
unfoldable pub handle_message : Env → ℕ → ClientMessage → Server → Server
unfolding for_session
handle_message env key msg s = for_session env key msg (get_session key s) s

-- What the read loop does before it hands a message over: `Register` rewrites the session.
unfoldable pub note_register : ℕ → ClientMessage → Server → Server
note_register key (register device_id team_id name) s = update_session key device_id team_id s
note_register key _ s = s

-- A text message of the read loop that parses.
unfoldable pub on_text : Env → ℕ → ClientMessage → Server → Server
unfolding handle_message note_register
on_text env key msg s = handle_message env key msg (note_register key msg s)

-- What happens to the server: a connection that has authenticated, a message, the end of a
-- connection, and the tick of the timeout task.
pub data Event : Type 0 where
  connected : (key device_id team_id : ℕ) → Event
  received : (key : ℕ) (msg : ClientMessage) → Event
  closed : (key : ℕ) → Event
  ticked : Event

unfoldable pub on_event : Env → Event → Server → Server
on_event env (connected key device_id team_id) s = register_client key device_id team_id s
on_event env (received key msg) s = on_text env key msg s
on_event env (closed key) s = unregister_client key s
on_event env ticked s = check_all_task_timeouts env s

-- A history of events, each with what it meets outside, where each is handled to its end before the
-- next one. The connections and the timeout task of the program run at once: Handler/Interleaved is
-- about their statements in any order.
unfoldable pub run : List (Env × Event) → Server → Server
unfolding on_event
run [] s = s
run ((env, e) ∷ es) s = run es (on_event env e s)
