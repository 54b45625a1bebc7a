-- ===== src/Db/Integrity.antt =====
-- src/collaboration/server/db.rs: the constraints of the schema hold after every statement.
use x_videos_dowloads.Prelude.{
  ℕ, ◌≡◌, refl, String, Bool, true, false, List, [], ◌∷◌, ◌++◌, map, Option, none, some, Result, ok,
  err, any, any-append, update_where, map-update_where, All, All-append, All-update_where, All-map,
  Distinct, Distinct-map-append, ◌==◌, str_eq, arith, Bool-cases, inl, inr,
}
use x_videos_dowloads.Types.{Team, Device, Task}
use x_videos_dowloads.Db.Schema.{Database, breaks_foreign_key}
use x_videos_dowloads.Db.Teams.{create_team, generate_invite_code}
use x_videos_dowloads.Db.Devices.{
  register_device, insert_checked, insert_device_row, update_device_heartbeat, set_device_offline,
  upsert,
}
use x_videos_dowloads.Db.Tasks.{
  create_task, insert_task_row, update_task, overwrite, release_task, release,
}
use x_videos_dowloads.Db.Messages.{save_offline_message, clear_offline_messages}

-- A team with this identifier is stored.
abbrev pub has_team : Database → ℕ → Bool
has_team db id = any (λ (t : Team). t.id == id) db.teams

abbrev pub device_ids : Database → List ℕ
device_ids db = map (λ (d : Device). d.id) db.devices

abbrev pub task_ids : Database → List ℕ
task_ids db = map (λ (t : Task). t.id) db.tasks

abbrev pub task_urls : Database → List String
task_urls db = map (λ (t : Task). t.url) db.tasks

-- The PRIMARY KEY, UNIQUE and FOREIGN KEY constraints of the schema.
pub record IsSound (db : Database) : Type 0 where
  pub team_ids_distinct : Distinct ◌==◌ (map (λ (t : Team). t.id) db.teams)
  pub codes_distinct : Distinct str_eq (map (λ (t : Team). t.invite_code) db.teams)
  pub device_ids_distinct : Distinct ◌==◌ (device_ids db)
  pub task_ids_distinct : Distinct ◌==◌ (task_ids db)
  pub urls_distinct : Distinct str_eq (task_urls db)
  pub devices_have_teams :
      db.foreign_keys ≡ true → All (λ (d : Device). has_team db d.team_id ≡ true) db.devices
  pub tasks_have_teams :
      db.foreign_keys ≡ true → All (λ (t : Task). has_team db t.team_id ≡ true) db.tasks

-- The methods of `Database` that write.
pub data Write : Type 0 where
  create_team_write : (fresh_id now : ℕ) (draw : ℕ → ℕ) (name : String) → Write
  register_device_write : (parses_ip : String → Bool) (device : Device) → Write
  heartbeat_write : (now device_id : ℕ) → Write
  offline_write : (device_id : ℕ) → Write
  create_task_write : (task : Task) (team_id : ℕ) → Write
  update_task_write : (task : Task) (team_id : ℕ) → Write
  release_task_write : (task_id : ℕ) → Write
  save_message_write : (now device_id : ℕ) (message : String) → Write
  clear_messages_write : (device_id : ℕ) → Write

-- The database after a method, whether it succeeds or fails.
unfoldable pub after_write : Option String → Write → Database → Database
after_write fault (create_team_write id now draw name) db =
    (create_team fault id now draw name db).1
after_write fault (register_device_write parses_ip device) db =
    (register_device parses_ip fault device db).1
after_write fault (heartbeat_write now id) db = (update_device_heartbeat fault now id db).1
after_write fault (offline_write id) db = (set_device_offline fault id db).1
after_write fault (create_task_write task team_id) db = (create_task fault task team_id db).1
after_write fault (update_task_write task team_id) db = (update_task fault task team_id db).1
after_write fault (release_task_write id) db = (release_task fault id db).1
after_write fault (save_message_write now id message) db =
    (save_offline_message fault now id message db).1
after_write fault (clear_messages_write id) db = (clear_offline_messages fault id db).1

module _ (db : Database) (sound : IsSound db) where
  -- The three ways in which a statement changes the tables.
  add_team :
      (team : Team)
      → has_team db team.id ≡ false
      → any (λ (t : Team). str_eq t.invite_code team.invite_code) db.teams ≡ false
      → IsSound (record db { teams = db.teams ++ team ∷ [] })
  add_team team f g = record {
    team_ids_distinct =
        Distinct-map-append ◌==◌ (λ (t : Team). t.id) db.teams team f sound.team_ids_distinct;
    codes_distinct =
        Distinct-map-append str_eq (λ (t : Team). t.invite_code) db.teams team g
          sound.codes_distinct;
    device_ids_distinct = sound.device_ids_distinct;
    task_ids_distinct = sound.task_ids_distinct;
    urls_distinct = sound.urls_distinct;
    devices_have_teams =
        λ fk. All-map _ _ (λ d h. kept d.team_id h) db.devices (sound.devices_have_teams fk);
    tasks_have_teams =
        λ fk. All-map _ _ (λ t h. kept t.team_id h) db.tasks (sound.tasks_have_teams fk);
  }
    where
      kept :
          (id : ℕ)
          → has_team db id ≡ true
          → any (λ (t : Team). t.id == id) (db.teams ++ team ∷ []) ≡ true
      kept id h = rw (any-append (λ (t : Team). t.id == id) db.teams (team ∷ []), h)

  set_devices :
      (devices : List Device)
      → Distinct ◌==◌ (map (λ (d : Device). d.id) devices)
      → (db.foreign_keys ≡ true → All (λ (d : Device). has_team db d.team_id ≡ true) devices)
      → IsSound (record db { devices = devices })
  set_devices devices d h = record {
    team_ids_distinct = sound.team_ids_distinct;
    codes_distinct = sound.codes_distinct;
    device_ids_distinct = d;
    task_ids_distinct = sound.task_ids_distinct;
    urls_distinct = sound.urls_distinct;
    devices_have_teams = h;
    tasks_have_teams = sound.tasks_have_teams;
  }

  set_tasks :
      (tasks : List Task)
      → Distinct ◌==◌ (map (λ (t : Task). t.id) tasks)
      → Distinct str_eq (map (λ (t : Task). t.url) tasks)
      → (db.foreign_keys ≡ true → All (λ (t : Task). has_team db t.team_id ≡ true) tasks)
      → IsSound (record db { tasks = tasks })
  set_tasks tasks d u h = record {
    team_ids_distinct = sound.team_ids_distinct;
    codes_distinct = sound.codes_distinct;
    device_ids_distinct = sound.device_ids_distinct;
    task_ids_distinct = d;
    urls_distinct = u;
    devices_have_teams = sound.devices_have_teams;
    tasks_have_teams = h;
  }

  -- An `UPDATE devices` that keeps identifiers and teams.
  update_devices :
      (p : Device → Bool) (f : Device → Device)
      → ((d : Device) → (f d).id ≡ d.id)
      → ((d : Device) → (f d).team_id ≡ d.team_id)
      → IsSound (record db { devices = update_where p f db.devices })
  update_devices p f ids teams =
      set_devices (update_where p f db.devices)
        (rw (map-update_where (λ (d : Device). d.id) p f ids db.devices) sound.device_ids_distinct)
        (λ fk.
          All-update_where _ p f (λ d e h. rw (teams d) h) db.devices (sound.devices_have_teams fk))

  update_tasks :
      (p : Task → Bool) (f : Task → Task)
      → ((t : Task) → (f t).id ≡ t.id)
      → ((t : Task) → (f t).url ≡ t.url)
      → ((t : Task) → (f t).team_id ≡ t.team_id)
      → IsSound (record db { tasks = update_where p f db.tasks })
  update_tasks p f ids urls teams =
      set_tasks (update_where p f db.tasks)
        (rw (map-update_where (λ (t : Task). t.id) p f ids db.tasks) sound.task_ids_distinct)
        (rw (map-update_where (λ (t : Task). t.url) p f urls db.tasks) sound.urls_distinct)
        (λ fk.
          All-update_where _ p f (λ t e h. rw (teams t) h) db.tasks (sound.tasks_have_teams fk))

module _ (db : Database) (sound : IsSound db) where
  create_team-IsSound :
      (fault : Option String) (id now : ℕ) (draw : ℕ → ℕ) (name : String)
      → IsSound (create_team fault id now draw name db).1
  unfolding create_team
  create_team-IsSound (some message) id now draw name = sound
  create_team-IsSound none id now draw name =
      let taken = any (λ (t : Team). str_eq t.invite_code (generate_invite_code draw)) db.teams in
      elim (Bool-cases (has_team db id)) [
        | inl t ↦ rw t sound
        | inr f ↦ elim (Bool-cases taken) [
          | inl t ↦ rw (f, t) sound
          | inr g ↦ rw (f, g) (add_team db sound _ f g)
        ]
      ]

  insert_device_row-IsSound : (device : Device) → IsSound (insert_device_row device db).1
  unfolding insert_device_row breaks_foreign_key
  insert_device_row-IsSound device =
      elim (Bool-cases (any (λ (d : Device). d.id == device.id) db.devices)) [
        | inl t ↦ rw t (update_devices db sound _ (upsert device) (λ d. refl) (λ d. refl))
        | inr f ↦ elim (Bool-cases (breaks_foreign_key device.team_id db)) [
          | inl t ↦ rw (f, t) sound
          | inr g ↦
              rw (f, g)
                (set_devices db sound (db.devices ++ device ∷ [])
                  (Distinct-map-append ◌==◌ (λ (d : Device). d.id) db.devices device f
                    sound.device_ids_distinct)
                  (λ fk.
                    All-append _ db.devices (device ∷ []) (sound.devices_have_teams fk)
                      (ground arith, tt)))
        ]
      ]

  insert_checked-IsSound :
      (checked : Result (Unit {0})) (fault : Option String) (device : Device)
      → IsSound (insert_checked checked fault device db).1
  unfolding insert_checked
  insert_checked-IsSound (err e) fault device = sound
  insert_checked-IsSound (ok u) (some message) device = sound
  insert_checked-IsSound (ok u) none device = insert_device_row-IsSound device

  insert_task_row-IsSound :
      (fault : Option String) (row : Task) → IsSound (insert_task_row fault row db).1
  unfolding insert_task_row breaks_foreign_key
  insert_task_row-IsSound (some message) row = sound
  insert_task_row-IsSound none row =
      elim (Bool-cases (any (λ (t : Task). t.id == row.id) db.tasks)) [
        | inl t ↦ rw t sound
        | inr f ↦ elim (Bool-cases (any (λ (t : Task). str_eq t.url row.url) db.tasks)) [
          | inl t ↦ rw (f, t) sound
          | inr g ↦ elim (Bool-cases (breaks_foreign_key row.team_id db)) [
            | inl t ↦ rw (f, g, t) sound
            | inr k ↦
                rw (f, g, k)
                  (set_tasks db sound (db.tasks ++ row ∷ [])
                    (Distinct-map-append ◌==◌ (λ (t : Task). t.id) db.tasks row f
                      sound.task_ids_distinct)
                    (Distinct-map-append str_eq (λ (t : Task). t.url) db.tasks row g
                      sound.urls_distinct)
                    (λ fk.
                      All-append _ db.tasks (row ∷ []) (sound.tasks_have_teams fk)
                        (ground arith, tt)))
          ]
        ]
      ]

-- Where they hold before, the constraints of the schema hold after every method that writes,
-- whether it succeeds or fails: the identifiers, invite codes and URLs are distinct, and with
-- foreign keys on every device and task belongs to a stored team.
pub after_write-IsSound :
    (fault : Option String) (w : Write) (db : Database)
    → IsSound db
    → IsSound (after_write fault w db)
unfolding after_write register_device update_device_heartbeat set_device_offline create_task
    update_task release_task save_offline_message clear_offline_messages
after_write-IsSound fault (create_team_write id now draw name) db s =
    create_team-IsSound db s fault id now draw name
after_write-IsSound fault (register_device_write parses_ip device) db s =
    insert_checked-IsSound db s _ fault device
after_write-IsSound fault (create_task_write task team_id) db s =
    insert_task_row-IsSound db s fault (record task { team_id = team_id })
after_write-IsSound (some message) _ db s = s
after_write-IsSound none (heartbeat_write now id) db s =
    update_devices db s _ _ (λ d. refl) (λ d. refl)
after_write-IsSound none (offline_write id) db s = update_devices db s _ _ (λ d. refl) (λ d. refl)
after_write-IsSound none (update_task_write task team_id) db s =
    update_tasks db s _ (overwrite task) (λ t. refl) (λ t. refl) (λ t. refl)
after_write-IsSound none (release_task_write id) db s =
    update_tasks db s _ release (λ t. refl) (λ t. refl) (λ t. refl)
after_write-IsSound none (save_message_write now id message) db s = record {
  team_ids_distinct = s.team_ids_distinct;
  codes_distinct = s.codes_distinct;
  device_ids_distinct = s.device_ids_distinct;
  task_ids_distinct = s.task_ids_distinct;
  urls_distinct = s.urls_distinct;
  devices_have_teams = s.devices_have_teams;
  tasks_have_teams = s.tasks_have_teams;
}
after_write-IsSound none (clear_messages_write id) db s = record {
  team_ids_distinct = s.team_ids_distinct;
  codes_distinct = s.codes_distinct;
  device_ids_distinct = s.device_ids_distinct;
  task_ids_distinct = s.task_ids_distinct;
  urls_distinct = s.urls_distinct;
  devices_have_teams = s.devices_have_teams;
  tasks_have_teams = s.tasks_have_teams;
}
