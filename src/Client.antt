-- ===== src/Client.antt =====
-- src/collaboration/client/ws.rs: `CollaborationClient`. A broadcast channel is the list of messages
-- that have been sent to it, found by its number; what the server does when the client connects is a
-- parameter, `Link`. The heartbeat is one of the messages that are sent.
pub mod Files
pub mod Silence
pub mod Reconnect
pub mod Tests
use x_videos_dowloads.Prelude.{
  ℕ, zero, suc, ◌+◌, ◌-◌, ◌*◌, ◌^◌, String, Bool, true, false, List, [], ◌∷◌, ◌++◌, Option, none,
  some, Result, ok, err, min, length, if◌then◌else◌,
}
use x_videos_dowloads.Types.{ClientMessage, ServerMessage, register}
use x_videos_dowloads.Auth.{Codec, generate, to_text}
use x_videos_dowloads.Auth.Phase.{auth_line}

pub data ConnectionState : Type 0 where
  connected connecting disconnected failed : ConnectionState
  reconnecting : (attempt : ℕ) → ConnectionState

-- `ConnectionState::from_u64`
abbrev pub from_u64 : ℕ → ConnectionState
from_u64 zero = disconnected
from_u64 (suc zero) = connecting
from_u64 (suc (suc zero)) = connected
from_u64 (suc (suc (suc zero))) = failed
from_u64 (suc (suc (suc (suc n)))) = reconnecting n

abbrev pub max_reconnect_attempts : ℕ
max_reconnect_attempts = 10

abbrev pub backoff_base_secs : ℕ
backoff_base_secs = 1

abbrev pub max_backoff_secs : ℕ
max_backoff_secs = 30

-- A frame that the client writes to the socket.
pub data Written : Type 0 where
  auth : (line : String) → Written
  json : ClientMessage → Written

-- The client, with the channels it has made, the frames it has written, and the channel that its
-- read loop sends to, once there is one.
pub record Client : Type 0 where
  pub device_id : ℕ
  pub team_id : ℕ
  pub device_name : String
  pub server_url : String
  pub msg_tx : ℕ
  pub state : ℕ
  pub channels : List (List ServerMessage)
  pub reader : Option ℕ
  pub written : List Written
  -- Whether the write loop still takes messages.
  pub writes : Bool

-- What a connection meets: an error before a frame, a call that never returns before a frame, since
-- nothing bounds its time, or neither. The number is the time in seconds.
pub data Link : Type 0 where
  refused : Link
  cut_at_auth : Link
  cut_at_register : (now : ℕ) → Link
  hangs : Link
  hangs_at_register : (now : ℕ) → Link
  opened : (now : ℕ) → Link

abbrev pub token_frame : Codec → (now : ℕ) → Client → Written
token_frame codec now c =
    auth (auth_line (to_text codec (generate codec now c.team_id c.device_id)))

abbrev pub register_frame : Client → Written
register_frame c = json (register c.device_id c.team_id c.device_name)

-- The client between its two frames.
abbrev pub authenticated : Codec → (now : ℕ) → Client → Client
authenticated codec now c = record c {
  channels = c.channels ++ [] ∷ [];
  written = c.written ++ token_frame codec now c ∷ [];
}

-- `init_ws_connection_with_receiver`: the read loop sends to a channel that is made here. There is no
-- result where the call does not return.
unfoldable pub init_ws_connection : Codec → Link → Client → Option (Result (Unit {0})) × Client
init_ws_connection codec refused c = (some (err "io"), c)
init_ws_connection codec cut_at_auth c = (some (err "io"), c)
init_ws_connection codec (cut_at_register now) c = (some (err "io"), authenticated codec now c)
init_ws_connection codec hangs c = (none, c)
init_ws_connection codec (hangs_at_register now) c = (none, authenticated codec now c)
init_ws_connection codec (opened now) c = (
  some (ok tt),
  record c {
    state = 2;
    channels = c.channels ++ [] ∷ [];
    reader = some (length c.channels);
    written = c.written ++ token_frame codec now c ∷ register_frame c ∷ [];
    writes = true;
  },
)

-- The client that `connect` makes, before it is connected.
abbrev pub new_client :
    (server_url : String) (team_id device_id : ℕ) (device_name : String) → Client
new_client server_url team_id device_id device_name = record {
  device_id = device_id;
  team_id = team_id;
  device_name = device_name;
  server_url = server_url;
  msg_tx = 0;
  state = 1;
  channels = [] ∷ [];
  reader = none;
  written = [];
  writes = false;
}

-- `connect`
unfoldable pub connect :
    Codec
    → Link
    → (server_url : String) (team_id device_id : ℕ) (device_name : String)
    → Option (Result (Unit {0})) × Client
unfolding init_ws_connection
connect codec link server_url team_id device_id device_name =
    init_ws_connection codec link (new_client server_url team_id device_id device_name)

-- A message more in a channel.
unfoldable pub broadcast : ℕ → ServerMessage → List (List ServerMessage) → List (List ServerMessage)
broadcast n m [] = []
broadcast zero m (c ∷ cs) = (c ++ m ∷ []) ∷ cs
broadcast (suc n) m (c ∷ cs) = c ∷ broadcast n m cs

-- The read loop, on a text that is a message of the server.
abbrev pub read_to : Option ℕ → ServerMessage → Client → Client
read_to none m c = c
read_to (some n) m c = record c { channels = broadcast n m c.channels }

abbrev pub read_message : ServerMessage → Client → Client
read_message m c = read_to c.reader m c

-- `send`, and the write loop; a message is lost where the socket is broken.
abbrev pub send_if : (writes : Bool) → ClientMessage → Client → Result (Unit {0}) × Client
send_if true m c = (ok tt, record c { written = c.written ++ json m ∷ [] })
send_if false m c = (err "channel closed", c)

abbrev pub send : ClientMessage → Client → Result (Unit {0}) × Client
send m c = send_if c.writes m c

-- What has been sent to a channel.
unfoldable pub channel : ℕ → List (List ServerMessage) → List ServerMessage
channel n [] = []
channel zero (c ∷ cs) = c
channel (suc n) (c ∷ cs) = channel n cs

-- The messages for those who called `subscribe`.
abbrev pub subscribed : Client → List ServerMessage
subscribed c = channel c.msg_tx c.channels

-- The seconds before an attempt.
abbrev pub backoff_secs : (attempt : ℕ) → ℕ
backoff_secs attempt = min (backoff_base_secs * 2 ^ (attempt - 1)) max_backoff_secs

-- The attempts from `attempt` on, of which `left` remain: the result, unless an attempt does not
-- return, the client, and the seconds slept. `links` is what each attempt meets.
unfoldable pub attempts :
    Codec → (links : ℕ → Link) (left attempt : ℕ) → Client → Option (Result (Unit {0})) × Client × ℕ
unfolding init_ws_connection
attempts codec links zero attempt c = (some (err "达到最大重连次数"), record c { state = 3 }, 0)
attempts codec links (suc left) attempt c =
    let (result, after) =
      init_ws_connection codec (links attempt) (record c { state = 4 + attempt; writes = false }) in
    let (end, last, waited) = attempts codec links left (suc attempt) after in
    elim result [
      | none ↦ (none, after, backoff_secs attempt)
      | some returned ↦ elim returned [
        | ok u ↦ (some (ok tt), after, backoff_secs attempt)
        | err e ↦ (end, last, backoff_secs attempt + waited)
      ]
    ]

-- `reconnect`
unfoldable pub reconnect :
    Codec → (links : ℕ → Link) → Client → Option (Result (Unit {0})) × Client × ℕ
unfolding attempts
reconnect codec links c = attempts codec links max_reconnect_attempts 1 c

-- What happens to a client that has been made: a message arrives, one is sent, the socket breaks, or
-- it reconnects.
pub data Event : Type 0 where
  arrives : ServerMessage → Event
  sends : ClientMessage → Event
  breaks : Event
  reconnects : (links : ℕ → Link) → Event

unfoldable pub on_event : Codec → Event → Client → Client
unfolding reconnect
on_event codec (arrives m) c = read_message m c
on_event codec (sends m) c = (send m c).1
on_event codec breaks c = record c { writes = false }
on_event codec (reconnects links) c = (reconnect codec links c).1

unfoldable pub run : Codec → List Event → Client → Client
unfolding on_event
run codec [] c = c
run codec (e ∷ es) c = run codec es (on_event codec e c)
