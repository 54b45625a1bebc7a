-- ===== src/Handler/Ghosts.antt =====
-- src/collaboration/server/handler.rs: no handler stores the device of a session or puts one on
-- the hash ring, and what follows for files, assignment and timeouts.
use x_videos_dowloads.Prelude.{
  ℕ, ◌≡◌, refl, inl, inr, String, Bool, List, Option, none, some, find, find-All, any, ◌==◌, arith,
  Bool-cases, Option-cases, All, All-append, All-update_where, unwrap_or, update_where,
}
use x_videos_dowloads.Types.{Device, Task, nil_id, file_available}
use x_videos_dowloads.HashRing.{Hasher}
use x_videos_dowloads.Db.Schema.{Database, breaks_foreign_key}
use x_videos_dowloads.Db.Tasks.{create_task, update_task, release_task}
use x_videos_dowloads.Db.Teams.{create_team}
use x_videos_dowloads.Db.Devices.{
  register_device, update_device_heartbeat, set_device_offline, insert_device_row, upsert,
  get_device,
}
use x_videos_dowloads.Handler.State.{Env, new_server, send_to_device}
use x_videos_dowloads.Handler.Teams.{placeholder}
use x_videos_dowloads.Handler.Tasks.{
  read_one, handle_request_file, shown_name, owner_ip, owner_port,
}
use x_videos_dowloads.Handler.Dispatch.{Event, run}
use x_videos_dowloads.Handler.Invariants.{run-keeps}
use x_videos_dowloads.Handler.Kept.{IsKept}
use x_videos_dowloads.Handler.Kept.Scan.{check_task_timeouts-keeps}

-- The row of a placeholder: nil, and without an address.
pub record IsGhost (d : Device) : Type 0 where
  pub nil : d.id ≡ nil_id
  pub no_ip : d.public_ip ≡ none
  pub no_port : d.public_port ≡ none

abbrev pub IsGhostly : Database → Type 0
IsGhostly db = All IsGhost db.devices

-- Which statements leave the device table alone.
pub create_team-devices :
    (fault : Option String) (id now : ℕ) (draw : ℕ → ℕ) (name : String) (db : Database)
    → (create_team fault id now draw name db).1.devices ≡ db.devices
unfolding create_team
create_team-devices (some m) id now draw name db = refl
create_team-devices none id now draw name db = ground arith

pub create_task-devices :
    (fault : Option String) (task : Task) (team_id : ℕ) (db : Database)
    → (create_task fault task team_id db).1.devices ≡ db.devices
unfolding create_task
create_task-devices (some m) task team_id db = refl
create_task-devices none task team_id db = ground arith

pub update_task-devices :
    (fault : Option String) (task : Task) (team_id : ℕ) (db : Database)
    → (update_task fault task team_id db).1.devices ≡ db.devices
unfolding update_task
update_task-devices (some m) task team_id db = refl
update_task-devices none task team_id db = refl

IsGhostly-device :
    (parses_ip : String → Bool) (fault : Option String) (now team_id : ℕ) (name : String)
    (db : Database)
    → IsGhostly db
    → IsGhostly (register_device parses_ip fault (placeholder now team_id name) db).1
unfolding register_device insert_device_row
IsGhostly-device parses_ip (some m) now team_id name db h = h
IsGhostly-device parses_ip none now team_id name db h =
    elim (Bool-cases (any (λ (d : Device). d.id == nil_id) db.devices)) [
      | inl t ↦ rw t (
          All-update_where IsGhost _ (upsert (placeholder now team_id name))
            (λ d e g. record { nil = g.nil; no_ip = refl; no_port = refl }) db.devices h)
      | inr f ↦ elim (Bool-cases (breaks_foreign_key team_id db)) [
        | inl t ↦ rw (f, t) h
        | inr g ↦
            rw (f, g)
              (All-append IsGhost db.devices _ h
                (record { nil = refl; no_ip = refl; no_port = refl }, tt))
      ]
    ]

-- An update that keeps identifiers and addresses.
IsGhostly-update :
    (p : Device → Bool) (f : Device → Device) (ds : List Device)
    → ((d : Device) → IsGhost d → IsGhost (f d))
    → All IsGhost ds
    → All IsGhost (update_where p f ds)
IsGhostly-update p f ds keep h = All-update_where IsGhost p f (λ d e g. keep d g) ds h

IsGhostly-kept : IsKept IsGhostly
unfolding update_device_heartbeat set_device_offline release_task
IsGhostly-kept = record {
  at_team = λ fault id now draw name db h. rw (create_team-devices fault id now draw name db) h;
  at_device = IsGhostly-device;
  at_heartbeat = λ fault now id db h.
      elim fault as (λ f. IsGhostly (update_device_heartbeat f now id db).1) [
        | none ↦
            IsGhostly-update _ _ db.devices
              (λ d g. record { nil = g.nil; no_ip = g.no_ip; no_port = g.no_port }) h
        | some m ↦ h
      ];
  at_offline = λ fault id db h. elim fault as (λ f. IsGhostly (set_device_offline f id db).1) [
    | none ↦
        IsGhostly-update _ _ db.devices
          (λ d g. record { nil = g.nil; no_ip = g.no_ip; no_port = g.no_port }) h
    | some m ↦ h
  ];
  at_new_task = λ fault env d tm url db h. rw (create_task-devices fault _ tm db) h;
  at_assign = λ fault env d tm owner url db here h. rw (update_task-devices fault _ tm db) h;
  at_change = λ fault env d tm k t u s e c h. rw (update_task-devices fault u tm s.db) h;
  at_scan = check_task_timeouts-keeps IsGhostly (λ id db h. h);
}

no_address :
    (fault : Option String) (owner : ℕ) (db : Database)
    → IsGhostly db
    → (owner_ip (get_device fault owner db) ≡ "0.0.0.0")
      × (owner_port (get_device fault owner db) ≡ 0)
unfolding owner_ip owner_port get_device
no_address (some m) owner db h = (refl, refl)
no_address none owner db h = elim (Option-cases (find (λ (d : Device). d.id == owner) db.devices)) [
  | inl e ↦ rw e (refl, refl)
  | inr (d, e) ↦
      let g = find-All IsGhost (λ (x : Device). x.id == owner) db.devices d h e in
      rw (e, g.no_ip, g.no_port) (refl, refl)
]

-- In every history of the server a request for the file of a task that the database reads and
-- that has a claimant, whoever it is, is answered with the address 0.0.0.0 and the port 0.
pub handle_request_file-no_address :
    (es : List (Env × Event)) (hasher : Hasher) (foreign_keys : Bool) (env : Env)
    (device_id team_id k owner : ℕ) (t : Task)
    → read_one env.fault team_id k (run es (new_server hasher foreign_keys)) ≡ some t
    → t.claimed_by ≡ some owner
    → handle_request_file env device_id team_id k (run es (new_server hasher foreign_keys))
      ≡ send_to_device device_id
          (file_available k owner "0.0.0.0" 0 (shown_name t.local_path) (unwrap_or t.file_size 0))
          (run es (new_server hasher foreign_keys))
unfolding handle_request_file
handle_request_file-no_address es hasher foreign_keys env device_id team_id k owner t e by =
    let s = run es (new_server hasher foreign_keys) in
    let ghosts = run-keeps IsGhostly IsGhostly-kept es (new_server hasher foreign_keys) tt in
    let none_known = no_address env.second_fault owner s.db ghosts in
    rw (e, by, none_known.0, none_known.1)
