-- ===== src/Handler/Teams.antt =====
-- src/collaboration/server/handler.rs: creating, joining and leaving a team, and heartbeats.
use Prim.Native.String.{◌++◌ as str_append}
use x_videos_dowloads.Prelude.{ℕ, String, true, Option, none, some, Result, ok, err}
use x_videos_dowloads.Types.{Team, Device, ServerMessage, team_created, team_joined, nil_id}
use x_videos_dowloads.HashRing.{remove_device}
use x_videos_dowloads.Db.Teams.{create_team, get_team_by_code}
use x_videos_dowloads.Db.Devices.{register_device, update_device_heartbeat, set_device_offline}
use x_videos_dowloads.Handler.State.{
  Server, Session, Env, get_session, set_session_team, send_to_device, send_error,
}

-- The session moves to the team, and its device is told.
unfoldable pub enter_team : ℕ → ℕ → ServerMessage → Option Session → Server → Server
unfolding set_session_team send_to_device
enter_team key team_id message none s = s
enter_team key team_id message (some x) s =
    send_to_device x.device_id message (set_session_team key team_id s)

-- The device row that both handlers register: its identifier is the nil one.
abbrev pub placeholder : ℕ → ℕ → String → Device
placeholder now team_id name = record {
  id = nil_id;
  team_id = team_id;
  name = name;
  public_ip = none;
  public_port = none;
  last_seen = now;
  is_online = true;
}

-- The registration of the placeholder, whose error is only printed.
unfoldable pub register_placeholder : Env → ℕ → String → Server → Server
unfolding register_device
register_placeholder env team_id name s = record s {
  db = (register_device env.parses_ip env.second_fault (placeholder env.now team_id name) s.db).1;
}

-- The handler once the database has answered.
unfoldable pub create_answer : Env → ℕ → String → Result Team → Server → Server
unfolding enter_team register_placeholder send_error
create_answer env key name (err e) s = send_error key (str_append "创建团队失败: " e) s
create_answer env key name (ok team) s =
    register_placeholder env team.id name
      (enter_team key team.id (team_created team) (get_session key s) s)

-- `handle_create_team`
unfoldable pub handle_create_team : Env → ℕ → String → Server → Server
unfolding create_answer
handle_create_team env key name s =
    let (result, db) = create_team env.fault env.fresh_id env.now env.draw name s.db in
    create_answer env key name result (record s { db = db })

unfoldable pub join_answer : Env → ℕ → Result (Option Team) → Server → Server
unfolding enter_team register_placeholder send_error
join_answer env key (err e) s = send_error key (str_append "查询团队失败: " e) s
join_answer env key (ok none) s = send_error key "邀请码无效" s
join_answer env key (ok (some team)) s =
    register_placeholder env team.id "NewDevice"
      (enter_team key team.id (team_joined team) (get_session key s) s)

-- `handle_join_team`
unfoldable pub handle_join_team : Env → ℕ → String → Server → Server
unfolding join_answer
handle_join_team env key invite_code s =
    join_answer env key (get_team_by_code env.fault invite_code s.db) s

-- `handle_heartbeat`
unfoldable pub handle_heartbeat : Env → ℕ → Server → Server
handle_heartbeat env device_id s = record s {
  db = (update_device_heartbeat env.fault env.now device_id s.db).1;
}

-- `handle_leave_team`
unfoldable pub handle_leave_team : Env → ℕ → Server → Server
handle_leave_team env device_id s = record s {
  db = (set_device_offline env.fault device_id s.db).1;
  ring = remove_device s.hasher s.ring device_id;
}
