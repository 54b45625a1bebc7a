-- ===== src/Handler/State.antt =====
-- src/collaboration/server/handler.rs: the sessions of the server, and how messages reach them.
-- A message that is sent joins `outbox` under the key of the session that receives it.
use x_videos_dowloads.Prelude.{
  ℕ, String, Bool, not, List, [], ◌∷◌, ◌++◌, map, Option, none, some, find, retain, update_where,
  ◌==◌, if◌then◌else◌,
}
use x_videos_dowloads.Types.{ServerMessage, error, nil_id}
use x_videos_dowloads.HashRing.{HashRing, Hasher, empty_ring}
use x_videos_dowloads.Db.Schema.{Database, empty_database}

-- A session under its key, the fresh identifier of the connection.
pub record Session : Type 0 where
  pub key : ℕ
  pub device_id : ℕ
  pub team_id : ℕ

-- `MessageHandler`, with what its sessions have been sent, oldest first.
pub record Server : Type 0 where
  pub db : Database
  pub sessions : List Session
  pub ring : HashRing
  pub hasher : Hasher
  pub outbox : List (ℕ × ServerMessage)

-- What an event meets outside the program: the clock, random values, and the errors that SQLite
-- reports for its first and second statement, for the scan of a team and for the release of a task.
pub record Env : Type 0 where
  pub now : ℕ
  pub fresh_id : ℕ
  pub draw : ℕ → ℕ
  pub parses_ip : String → Bool
  pub fault : Option String
  pub second_fault : Option String
  pub scan_fault : ℕ → Option String
  pub release_fault : ℕ → Option String

-- `MessageHandler::new` on a new database.
abbrev pub new_server : Hasher → Bool → Server
new_server hasher foreign_keys = record {
  db = empty_database foreign_keys;
  sessions = [];
  ring = empty_ring;
  hasher = hasher;
  outbox = [];
}

-- The session table after the sessions of a device are dropped; the nil device keeps its own.
unfoldable pub drop_device : ℕ → List Session → List Session
drop_device device_id sessions =
    if device_id == nil_id
    then sessions
    else retain (λ (x : Session). not (x.device_id == device_id)) sessions

-- `register_client`
unfoldable pub register_client : (key device_id team_id : ℕ) → Server → Server
unfolding drop_device
register_client key device_id team_id s = record s {
  sessions =
      retain (λ (x : Session). not (x.key == key)) (drop_device device_id s.sessions)
      ++ record { key = key; device_id = device_id; team_id = team_id } ∷ [];
}

-- `update_session`
unfoldable pub update_session : (key device_id team_id : ℕ) → Server → Server
update_session key device_id team_id s = record s {
  sessions =
      update_where (λ (x : Session). x.key == key)
        (λ x. record x { device_id = device_id; team_id = team_id }) s.sessions;
}

-- `unregister_client_by_key`
unfoldable pub unregister_client : ℕ → Server → Server
unregister_client key s = record s {
  sessions = retain (λ (x : Session). not (x.key == key)) s.sessions;
}

-- The write of a new team into a session, in `handle_create_team` and `handle_join_team`.
unfoldable pub set_session_team : (key team_id : ℕ) → Server → Server
set_session_team key team_id s = record s {
  sessions =
      update_where (λ (x : Session). x.key == key) (λ x. record x { team_id = team_id }) s.sessions;
}

-- `sessions.get(key)`
unfoldable pub get_session : ℕ → Server → Option Session
get_session key s = find (λ (x : Session). x.key == key) s.sessions

-- `session.tx.send(…)` for each session that passes the test.
unfoldable pub send_where : (Session → Bool) → ServerMessage → Server → Server
send_where p message s = record s {
  outbox = s.outbox ++ map (λ (x : Session). (x.key, message)) (retain p s.sessions);
}

-- `send_to_device`
unfoldable pub send_to_device : ℕ → ServerMessage → Server → Server
unfolding send_where
send_to_device device_id message s =
    send_where (λ (x : Session). x.device_id == device_id) message s

-- `broadcast_to_team`
unfoldable pub broadcast_to_team : ℕ → ServerMessage → Server → Server
unfolding send_where
broadcast_to_team team_id message s = send_where (λ (x : Session). x.team_id == team_id) message s

-- `send_error`
unfoldable pub send_error : ℕ → String → Server → Server
send_error key message s = elim (find (λ (x : Session). x.key == key) s.sessions) [
  | none ↦ s
  | some x ↦ record s { outbox = s.outbox ++ (x.key, error message) ∷ [] }
]
