-- ===== src/Db/Devices.antt =====
-- src/collaboration/server/db.rs: the devices of the teams.
use Prim.Native.String.{◌++◌ as str_append}
use x_videos_dowloads.Prelude.{
  ℕ, String, Bool, true, false, List, [], ◌∷◌, ◌++◌, map, Option, none, some, Result, ok, err, any,
  find, retain, update_where, ◌==◌, not, if◌then◌else◌,
}
use x_videos_dowloads.Types.{Device}
use x_videos_dowloads.Db.Schema.{Database, query, execute, breaks_foreign_key}

-- `validate_ip`; `parses_ip` is `str::parse::<IpAddr>` succeeding.
unfoldable pub validate_ip : (String → Bool) → String → Result (Unit {0})
validate_ip parses_ip ip =
    if parses_ip ip then ok tt else err (str_append "Invalid IP address: " ip)

-- `validate_port`
unfoldable pub validate_port : ℕ → Result (Unit {0})
validate_port port = if port == 0 then err "Port must be between 1 and 65535" else ok tt

-- The two checks at the head of `register_device`, each only where a value is given.
unfoldable pub validate_device : (String → Bool) → Option String → Option ℕ → Result (Unit {0})
unfolding validate_ip validate_port
validate_device parses_ip none none = ok tt
validate_device parses_ip none (some port) = validate_port port
validate_device parses_ip (some ip) none = validate_ip parses_ip ip
validate_device parses_ip (some ip) (some port) = elim (validate_ip parses_ip ip) [
  | ok u ↦ validate_port port
  | err e ↦ err e
]

-- `ON CONFLICT(id) DO UPDATE SET …`: the team of the stored row stays.
abbrev pub upsert : Device → Device → Device
upsert excluded row = record row {
  name = excluded.name;
  public_ip = excluded.public_ip;
  public_port = excluded.public_port;
  last_seen = excluded.last_seen;
  is_online = excluded.is_online;
}

-- `INSERT INTO devices … ON CONFLICT(id) DO UPDATE`
unfoldable pub insert_device_row : Device → Database → Result (Unit {0}) × Database
insert_device_row device db =
    if any (λ (d : Device). d.id == device.id) db.devices
    then (
      ok tt,
      record db {
        devices = update_where (λ (d : Device). d.id == device.id) (upsert device) db.devices;
      },
    )
    else if breaks_foreign_key device.team_id db
    then (err "FOREIGN KEY constraint failed", db)
    else (ok tt, record db { devices = db.devices ++ device ∷ [] })

-- The statement runs once the checks have passed.
unfoldable pub insert_checked :
    Result (Unit {0}) → Option String → Device → Database → Result (Unit {0}) × Database
insert_checked (err e) fault device db = (err e, db)
insert_checked (ok u) (some message) device db = (err message, db)
insert_checked (ok u) none device db = insert_device_row device db

-- `Database::register_device`
unfoldable pub register_device :
    (String → Bool) → Option String → Device → Database → Result (Unit {0}) × Database
unfolding validate_device insert_checked
register_device parses_ip fault device db =
    insert_checked (validate_device parses_ip device.public_ip device.public_port) fault device db

-- `Database::update_device_heartbeat`
unfoldable pub update_device_heartbeat :
    Option String → (now device_id : ℕ) → Database → Result (Unit {0}) × Database
update_device_heartbeat fault now device_id db =
    execute fault
      (record db {
        devices =
            update_where (λ (d : Device). d.id == device_id)
              (λ d. record d { last_seen = now; is_online = true }) db.devices;
      })
      db

-- `Database::get_team_devices`
unfoldable pub get_team_devices : Option String → ℕ → Database → Result (List Device)
get_team_devices fault team_id db =
    query fault (retain (λ (d : Device). d.team_id == team_id) db.devices)

-- `Database::get_device`
unfoldable pub get_device : Option String → ℕ → Database → Result (Option Device)
get_device fault device_id db = query fault (find (λ (d : Device). d.id == device_id) db.devices)

team_id_of : Option Device → Option ℕ
team_id_of none = none
team_id_of (some d) = some d.team_id

-- `Database::get_device_team_id`
unfoldable pub get_device_team_id : Option String → ℕ → Database → Result (Option ℕ)
unfolding team_id_of
get_device_team_id fault device_id db =
    query fault (team_id_of (find (λ (d : Device). d.id == device_id) db.devices))

-- `Database::set_device_offline`
unfoldable pub set_device_offline :
    Option String → (device_id : ℕ) → Database → Result (Unit {0}) × Database
set_device_offline fault device_id db =
    execute fault
      (record db {
        devices =
            update_where (λ (d : Device). d.id == device_id) (λ d. record d { is_online = false })
              db.devices;
      })
      db

-- `SELECT DISTINCT`: the first occurrence of each value.
unfoldable pub distinct : List ℕ → List ℕ
distinct [] = []
distinct (x ∷ xs) = x ∷ retain (λ y. not (y == x)) (distinct xs)

-- `Database::get_all_team_ids`
unfoldable pub get_all_team_ids : Option String → Database → Result (List ℕ)
unfolding distinct
get_all_team_ids fault db = query fault (distinct (map (λ (d : Device). d.team_id) db.devices))
