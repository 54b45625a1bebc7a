-- ===== src/Handler/Coherence.antt =====
-- src/collaboration/server/handler.rs: what holds of the database in every history of the server.
use x_videos_dowloads.Prelude.{
  ℕ, ◌≡◌, refl, inl, inr, String, Bool, true, List, [], ◌∷◌, Option, none, some, find-All, ◌==◌,
  opt_eq, arith, All, All-append, All-retain, All-update_where,
}
use x_videos_dowloads.Types.{Task, TaskStatus, queued, claimed, complete}
use x_videos_dowloads.HashRing.{Hasher}
use x_videos_dowloads.Db.Schema.{Database}
use x_videos_dowloads.Db.Tasks.{
  create_task, insert_task_row, update_task, overwrite, release_task, release,
}
use x_videos_dowloads.Db.NewTask.{insert_task_row-tasks}
use x_videos_dowloads.Db.Teams.{create_team}
use x_videos_dowloads.Db.Devices.{
  register_device, update_device_heartbeat, set_device_offline, insert_device_row,
}
use x_videos_dowloads.Db.Integrity.{
  IsSound, after_write-IsSound, after_write, create_team_write, register_device_write,
  heartbeat_write, offline_write, create_task_write, update_task_write, release_task_write,
}
use x_videos_dowloads.Handler.State.{Server, Env, new_server}
use x_videos_dowloads.Handler.Teams.{placeholder}
use x_videos_dowloads.Handler.Tasks.{added_task, assigned, read_one}
use x_videos_dowloads.Handler.Dispatch.{Event, run}
use x_videos_dowloads.Handler.Reading.{read_one_lem, read_one-none-fault}
use x_videos_dowloads.Handler.Kept.{Change, claims, advances, finishes, IsKept}
use x_videos_dowloads.Handler.Kept.Scan.{check_task_timeouts-keeps}
use x_videos_dowloads.Handler.Invariants.{run-keeps}

pub IsSound-kept : IsKept IsSound
unfolding after_write
IsSound-kept = record {
  at_team = λ fault id now draw name db.
      after_write-IsSound fault (create_team_write id now draw name) db;
  at_device = λ parses_ip fault now team_id name db.
      after_write-IsSound fault (register_device_write parses_ip (placeholder now team_id name)) db;
  at_heartbeat = λ fault now id db. after_write-IsSound fault (heartbeat_write now id) db;
  at_offline = λ fault id db. after_write-IsSound fault (offline_write id) db;
  at_new_task = λ fault env d tm url db.
      after_write-IsSound fault (create_task_write (added_task env d tm url) tm) db;
  at_assign = λ fault env d tm owner url db here.
      after_write-IsSound fault
        (update_task_write (assigned env owner (added_task env d tm url)) tm) db;
  at_change = λ fault env d tm k t u s e c. after_write-IsSound fault (update_task_write u tm) s.db;
  at_scan =
      check_task_timeouts-keeps IsSound
        (λ id db. after_write-IsSound none (release_task_write id) db);
}

-- The constraints of the schema hold in every history of the server that starts on a new
-- database, whatever the clients send and whichever statements fail.
pub run-IsSound :
    (es : List (Env × Event)) (hasher : Hasher) (foreign_keys : Bool)
    → IsSound (run es (new_server hasher foreign_keys)).db
run-IsSound es hasher foreign_keys =
    run-keeps IsSound IsSound-kept es (new_server hasher foreign_keys) (record {
      team_ids_distinct = tt;
      codes_distinct = tt;
      device_ids_distinct = tt;
      task_ids_distinct = tt;
      urls_distinct = tt;
      devices_have_teams = λ _. tt;
      tasks_have_teams = λ _. tt;
    })

-- A task is queued with no claimant, or claimed or complete with a claimant and a time of claim.
abbrev pub ClaimFits : TaskStatus → Option ℕ → Option ℕ → Type 0
ClaimFits queued none none = Unit
ClaimFits claimed (some d) (some at) = Unit
ClaimFits complete (some d) (some at) = Unit
ClaimFits _ _ _ = ⊥

abbrev pub Coherent : Task → Type 0
Coherent t = ClaimFits t.status t.claimed_by t.claimed_at

abbrev pub IsCoherent : Database → Type 0
IsCoherent db = All Coherent db.tasks

-- A task that is complete or claimed stays so for its claimant.
complete_fits :
    (s : TaskStatus) (by at : Option ℕ) (d : ℕ)
    → opt_eq by (some d) ≡ true
    → ClaimFits s by at
    → ClaimFits complete by at
complete_fits s none at d own fits = cc
complete_fits claimed (some x) (some y) d own fits = tt
complete_fits complete (some x) (some y) d own fits = tt
complete_fits s (some x) at d own fits = absurd fits

-- What the statements do to the task table.
pub create_team-tasks :
    (fault : Option String) (id now : ℕ) (draw : ℕ → ℕ) (name : String) (db : Database)
    → (create_team fault id now draw name db).1.tasks ≡ db.tasks
unfolding create_team
create_team-tasks (some m) id now draw name db = refl
create_team-tasks none id now draw name db = ground arith

pub register_device-tasks :
    (parses_ip : String → Bool) (fault : Option String) (now team_id : ℕ) (name : String)
    (db : Database)
    → (register_device parses_ip fault (placeholder now team_id name) db).1.tasks ≡ db.tasks
unfolding register_device insert_device_row
register_device-tasks parses_ip (some m) now team_id name db = refl
register_device-tasks parses_ip none now team_id name db = ground arith

pub insert_task_row-IsCoherent :
    (fault : Option String) (row : Task) (db : Database)
    → Coherent row
    → IsCoherent db
    → IsCoherent (insert_task_row fault row db).1
insert_task_row-IsCoherent fault row db c h = elim (insert_task_row-tasks fault row db) [
  | inl (e, _) ↦ rw e h
  | inr (e, _) ↦ rw e (All-append Coherent db.tasks (row ∷ []) h (c, tt))
]

pub update_task-IsCoherent :
    (fault : Option String) (task : Task) (team_id : ℕ) (db : Database)
    → Coherent task
    → IsCoherent db
    → IsCoherent (update_task fault task team_id db).1
unfolding update_task
update_task-IsCoherent (some m) task team_id db c h = h
update_task-IsCoherent none task team_id db c h =
    All-update_where Coherent (λ (t : Task). t.id == task.id) (overwrite task) (λ t e g. c) db.tasks
      h

pub read_one-Coherent :
    (fault : Option String) (team_id k : ℕ) (s : Server) (t : Task)
    → read_one fault team_id k s ≡ some t
    → IsCoherent s.db
    → Coherent t
read_one-Coherent fault team_id k s t e h =
    let at = read_one-none-fault fault team_id k s t e in
    find-All Coherent (λ (x : Task). x.id == k) _ t
      (All-retain Coherent (λ (x : Task). x.team_id == team_id) s.db.tasks h)
      (rw (read_one_lem team_id k s) at at)

pub Change-Coherent : {env : Env} {d : ℕ} {t u : Task} → Change env d t u → Coherent t → Coherent u
Change-Coherent (claims free) h = tt
Change-Coherent (advances p own) h = h
Change-Coherent {d = d} {t = t} (finishes path size own) h =
    complete_fits t.status t.claimed_by t.claimed_at d own h

pub IsCoherent-kept : IsKept IsCoherent
unfolding create_task update_device_heartbeat set_device_offline release_task
IsCoherent-kept = record {
  at_team = λ fault id now draw name db h. rw (create_team-tasks fault id now draw name db) h;
  at_device = λ parses_ip fault now tm name db h.
      rw (register_device-tasks parses_ip fault now tm name db) h;
  at_heartbeat = λ fault now id db h.
      elim fault as (λ f. IsCoherent (update_device_heartbeat f now id db).1) [
        | none ↦ h
        | some m ↦ h
      ];
  at_offline = λ fault id db h. elim fault as (λ f. IsCoherent (set_device_offline f id db).1) [
    | none ↦ h
    | some m ↦ h
  ];
  at_new_task =
      λ fault env d tm url db h. insert_task_row-IsCoherent fault (added_task env d tm url) db tt h;
  at_assign = λ fault env d tm owner url db here h.
      update_task-IsCoherent fault (assigned env owner (added_task env d tm url)) tm db tt h;
  at_change = λ fault env d tm k t u s e c h.
      update_task-IsCoherent fault u tm s.db
        (Change-Coherent c (read_one-Coherent env.fault tm k s t e h)) h;
  at_scan = check_task_timeouts-keeps IsCoherent (λ id db h.
      All-update_where Coherent (λ (t : Task). t.id == id) release (λ t e g. tt) db.tasks h);
}

-- In every history of the server each stored task is queued without a claimant, or claimed or
-- complete with a claimant and the time of its claim; none is `New` or `Failed`.
pub run-IsCoherent :
    (es : List (Env × Event)) (hasher : Hasher) (foreign_keys : Bool)
    → IsCoherent (run es (new_server hasher foreign_keys)).db
run-IsCoherent es hasher foreign_keys =
    run-keeps IsCoherent IsCoherent-kept es (new_server hasher foreign_keys) tt
