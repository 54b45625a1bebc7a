-- ===== src/Handler/FirstTeam.antt =====
-- src/collaboration/server/handler.rs: the one device row, and the one team that timeouts reach.
use x_videos_dowloads.Prelude.{
  ℕ, ◌≡◌, refl, ap, ◌∙◌, String, Bool, List, [], ◌∷◌, Option, none, some, Result, ok, arith,
  if◌then◌else◌, update_where, map,
}
use x_videos_dowloads.Types.{Device, nil_id}
use x_videos_dowloads.Db.Schema.{Database}
use x_videos_dowloads.Db.Tasks.{release_task}
use x_videos_dowloads.Db.Devices.{
  register_device, update_device_heartbeat, set_device_offline, insert_device_row, upsert,
  get_all_team_ids, distinct,
}
use x_videos_dowloads.Handler.State.{Server, Env}
use x_videos_dowloads.Handler.Teams.{placeholder}
use x_videos_dowloads.Handler.Timeouts.{check_all_task_timeouts, check_task_timeouts, teams_answer}
use x_videos_dowloads.Handler.Dispatch.{Event, run}
use x_videos_dowloads.Handler.Invariants.{run-keeps}
use x_videos_dowloads.Handler.Kept.{IsKept}
use x_videos_dowloads.Handler.Kept.Scan.{check_task_timeouts-keeps}
use x_videos_dowloads.Handler.Ghosts.{create_team-devices, create_task-devices, update_task-devices}

-- One row, the placeholder of this team.
abbrev pub OneRow : ℕ → List Device → Type 0
OneRow team_id ds = (d : Device) × (ds ≡ d ∷ []) × (d.id ≡ nil_id) × (d.team_id ≡ team_id)

abbrev pub IsFirstTeam : ℕ → Database → Type 0
IsFirstTeam team_id db = OneRow team_id db.devices

-- An update of the row that keeps its identifier and team.
update-OneRow :
    (team_id : ℕ) (p : Device → Bool) (f : Device → Device) (ds : List Device)
    → ((x : Device) → ((f x).id ≡ x.id) × ((f x).team_id ≡ x.team_id))
    → OneRow team_id ds
    → OneRow team_id (update_where p f ds)
update-OneRow team_id p f ds keeps (d, row, nil, team) =
    (if p d then f d else d, rw row, ground (arith, keeps d), ground (arith, keeps d))

device-IsFirstTeam :
    (first : ℕ) (parses_ip : String → Bool) (fault : Option String) (now team_id : ℕ)
    (name : String) (db : Database)
    → IsFirstTeam first db
    → IsFirstTeam first (register_device parses_ip fault (placeholder now team_id name) db).1
unfolding register_device insert_device_row
device-IsFirstTeam first parses_ip (some m) now team_id name db h = h
device-IsFirstTeam first parses_ip none now team_id name db (d, row, nil, team) =
    (upsert (placeholder now team_id name) d, ground arith, nil, team)

IsFirstTeam-kept : (first : ℕ) → IsKept (IsFirstTeam first)
unfolding update_device_heartbeat set_device_offline release_task
IsFirstTeam-kept first = record {
  at_team = λ fault id now draw name db h. rw (create_team-devices fault id now draw name db) h;
  at_device = device-IsFirstTeam first;
  at_heartbeat = λ fault now id db h.
      elim fault as (λ f. IsFirstTeam first (update_device_heartbeat f now id db).1) [
        | none ↦ update-OneRow first _ _ db.devices (λ x. (refl, refl)) h
        | some m ↦ h
      ];
  at_offline = λ fault id db h.
      elim fault as (λ f. IsFirstTeam first (set_device_offline f id db).1) [
        | none ↦ update-OneRow first _ _ db.devices (λ x. (refl, refl)) h
        | some m ↦ h
      ];
  at_new_task = λ fault env d tm url db h. rw (create_task-devices fault _ tm db) h;
  at_assign = λ fault env d tm owner url db here h. rw (update_task-devices fault _ tm db) h;
  at_change = λ fault env d tm k t u s e c h. rw (update_task-devices fault u tm s.db) h;
  at_scan = check_task_timeouts-keeps (IsFirstTeam first) (λ id db h. h);
}

get_all_team_ids-OneRow :
    (team_id : ℕ) (fault : Option String) (db : Database)
    → fault ≡ none
    → IsFirstTeam team_id db
    → get_all_team_ids fault db ≡ ok (team_id ∷ [])
unfolding get_all_team_ids
get_all_team_ids-OneRow team_id fault db up (d, row, nil, team) =
    rw up (
      ap (λ ds. ok (distinct (map (λ (x : Device). x.team_id) ds))) row
      ∙ ap (λ i. ok (i ∷ [])) team)

-- The first team to be created or joined is the only one whose tasks a timeout can release: from
-- the moment its placeholder is the device row, in every history, the timeout task whose query of
-- the teams succeeds scans that team and no other.
pub check_all_task_timeouts-first_team :
    (first : ℕ) (s : Server) (es : List (Env × Event)) (env : Env)
    → IsFirstTeam first s.db
    → env.fault ≡ none
    → check_all_task_timeouts env (run es s) ≡ check_task_timeouts env first (run es s)
unfolding check_all_task_timeouts
check_all_task_timeouts-first_team first s es env h up =
    ap (λ (r : Result (List ℕ)). teams_answer env r (run es s))
      (get_all_team_ids-OneRow first env.fault (run es s).db up
        (run-keeps (IsFirstTeam first) (IsFirstTeam-kept first) es s h))
