-- ===== src/Handler/Interleaved/Fits.antt =====
-- src/collaboration/server/handler.rs: what holds of the database whatever statements interleave.
use x_videos_dowloads.Prelude.{
  ℕ, ◌≡◌, refl, ap, ◌∙◌, inl, inr, String, Bool, List, [], ◌∷◌, Option, none, some, ◌==◌, All,
  All-update_where, find, find-append, find-update_where, update_found, update_where, Bool-cases,
}
use x_videos_dowloads.Types.{Task}
use x_videos_dowloads.Db.Schema.{Database}
use x_videos_dowloads.Db.Tasks.{create_task, update_task, overwrite, release_task, release}
use x_videos_dowloads.Db.Teams.{create_team}
use x_videos_dowloads.Db.Devices.{register_device, update_device_heartbeat, set_device_offline}
use x_videos_dowloads.Db.NewTask.{insert_task_row-tasks}
use x_videos_dowloads.Db.Integrity.{
  IsSound, after_write, after_write-IsSound, update_task_write, release_task_write,
}
use x_videos_dowloads.Handler.Teams.{placeholder}
use x_videos_dowloads.Handler.Tasks.{added_task, assigned}
use x_videos_dowloads.Handler.Reading.{stored}
use x_videos_dowloads.Handler.Coherence.{
  IsSound-kept, Coherent, IsCoherent, IsCoherent-kept, update_task-IsCoherent, read_one-Coherent,
  Change-Coherent, create_team-tasks, register_device-tasks,
}
use x_videos_dowloads.Handler.Interleaved.{
  Shared, IsHeld, Step, reads, changes, releases, adds, assigns, creates_team, registers, beats,
  leaves, Reach, here, next,
}

-- The columns that no statement of the program changes.
abbrev pub Keeps : Task → Task → Type 0
Keeps a b = (b.url ≡ a.url) × (b.team_id ≡ a.team_id) × (b.created_by ≡ a.created_by)

-- The task `a` is still stored, with those columns.
abbrev pub Stays : (k : ℕ) → Task → Database → Type 0
Stays k a db = (b : Task) × (stored db k ≡ some b) × Keeps a b

module _ (k : ℕ) (a : Task) where
  same-Stays : (db after : Database) → after.tasks ≡ db.tasks → Stays k a db → Stays k a after
  same-Stays db after e (b, at, kept) = (b, ap (find (λ (t : Task). t.id == k)) e ∙ at, kept)

  update-Stays :
      (db : Database) (p : Task → Bool) (f : Task → Task)
      → ((t : Task) → (f t).id ≡ t.id)
      → ((t : Task) → Keeps t (f t))
      → Stays k a db
      → Stays k a (record db { tasks = update_where p f db.tasks })
  update-Stays db p f ids step (b, at, kept) =
      let moved =
        find-update_where (λ (t : Task). t.id == k) p f (λ t. ap (λ i. i == k) (ids t)) db.tasks
        ∙ ap (update_found p f) at in
      elim (Bool-cases (p b)) [
        | inl t ↦
            let (url', team', creator') = step b in
            (f b, moved ∙ rw t, (url' ∙ kept.0, team' ∙ kept.1, creator' ∙ kept.2))
        | inr e ↦ (b, moved ∙ rw e, kept)
      ]

  update_task-Stays :
      (fault : Option String) (task : Task) (team_id : ℕ) (db : Database)
      → Stays k a db
      → Stays k a (update_task fault task team_id db).1
  unfolding update_task
  update_task-Stays (some m) task team_id db h = h
  update_task-Stays none task team_id db h =
      update-Stays db (λ (t : Task). t.id == task.id) (overwrite task) (λ t. refl)
        (λ t. (refl, refl, refl)) h

  create_task-Stays :
      (fault : Option String) (task : Task) (team_id : ℕ) (db : Database)
      → Stays k a db
      → Stays k a (create_task fault task team_id db).1
  unfolding create_task
  create_task-Stays fault task team_id db (b, at, kept) =
      let row : Task = record task { team_id = team_id } in
      elim (insert_task_row-tasks fault row db) [
        | inl (e, _) ↦ rw e (b, at, kept)
        | inr (e, _) ↦
            rw e (b, find-append (λ (t : Task). t.id == k) db.tasks (row ∷ []) ∙ rw at, kept)
      ]

  Step-Stays : {s t : Shared} → Step s t → Stays k a s.db → Stays k a t.db
  unfolding release_task update_device_heartbeat set_device_offline
  Step-Stays (reads fault team_id task_id server t same e) h = h
  Step-Stays {s = s} (changes fault env d tm t u held c) h = update_task-Stays fault u tm s.db h
  Step-Stays {s = s} (releases none id) h =
      update-Stays s.db (λ (t : Task). t.id == id) release (λ t. refl) (λ t. (refl, refl, refl)) h
  Step-Stays (releases (some m) id) h = h
  Step-Stays {s = s} (adds fault env d tm url) h =
      create_task-Stays fault (added_task env d tm url) tm s.db h
  Step-Stays {s = s} (assigns fault env d tm owner url) h =
      update_task-Stays fault (assigned env owner (added_task env d tm url)) tm s.db h
  Step-Stays {s = s} (creates_team fault id now draw name) h =
      same-Stays s.db (create_team fault id now draw name s.db).1
        (create_team-tasks fault id now draw name s.db) h
  Step-Stays {s = s} (registers parses_ip fault now tm name) h =
      same-Stays s.db (register_device parses_ip fault (placeholder now tm name) s.db).1
        (register_device-tasks parses_ip fault now tm name s.db) h
  Step-Stays (beats none now id) h = h
  Step-Stays (beats (some m) now id) h = h
  Step-Stays (leaves none id) h = h
  Step-Stays (leaves (some m) id) h = h

  Reach-Stays : {s t : Shared} → Reach s t → Stays k a s.db → Stays k a t.db
  Reach-Stays here h = h
  Reach-Stays (next r step) h = Step-Stays step (Reach-Stays r h)

held-Coherent : (t : Task) (rows : List Task) → IsHeld t rows → All Coherent rows → Coherent t
held-Coherent t [] held h = absurd held
held-Coherent t (row ∷ rows) (inl same) h = rw same h.0
held-Coherent t (row ∷ rows) (inr later) h = held-Coherent t rows later h.1

-- The database and the rows that were read are in order.
pub record AreFit (s : Shared) : Type 0 where
  pub sound : IsSound s.db
  pub coherent : IsCoherent s.db
  pub rows_coherent : All Coherent s.rows

Step-AreFit : {s t : Shared} → Step s t → AreFit s → AreFit t
unfolding release_task after_write
Step-AreFit (reads fault team_id task_id server t same e) h = record {
  sound = h.sound;
  coherent = h.coherent;
  rows_coherent =
      (read_one-Coherent fault team_id task_id server t e (rw same h.coherent), h.rows_coherent);
}
Step-AreFit {s = s} (changes fault env d tm t u held c) h = record {
  sound = after_write-IsSound fault (update_task_write u tm) s.db h.sound;
  coherent =
      update_task-IsCoherent fault u tm s.db
        (Change-Coherent c (held-Coherent t s.rows held h.rows_coherent)) h.coherent;
  rows_coherent = h.rows_coherent;
}
Step-AreFit {s = s} (releases fault id) h = record {
  sound = after_write-IsSound fault (release_task_write id) s.db h.sound;
  coherent = elim fault as (λ f. IsCoherent (release_task f id s.db).1) [
    | none ↦
        All-update_where Coherent (λ (t : Task). t.id == id) release (λ t e g. tt) s.db.tasks
          h.coherent
    | some m ↦ h.coherent
  ];
  rows_coherent = h.rows_coherent;
}
Step-AreFit {s = s} (adds fault env d tm url) h = record {
  sound = IsSound-kept.at_new_task fault env d tm url s.db h.sound;
  coherent = IsCoherent-kept.at_new_task fault env d tm url s.db h.coherent;
  rows_coherent = h.rows_coherent;
}
Step-AreFit {s = s} (assigns fault env d tm owner url) h = record {
  sound =
      after_write-IsSound fault
        (update_task_write (assigned env owner (added_task env d tm url)) tm) s.db h.sound;
  coherent =
      update_task-IsCoherent fault (assigned env owner (added_task env d tm url)) tm s.db tt
        h.coherent;
  rows_coherent = h.rows_coherent;
}
Step-AreFit {s = s} (creates_team fault id now draw name) h = record {
  sound = IsSound-kept.at_team fault id now draw name s.db h.sound;
  coherent = IsCoherent-kept.at_team fault id now draw name s.db h.coherent;
  rows_coherent = h.rows_coherent;
}
Step-AreFit {s = s} (registers parses_ip fault now tm name) h = record {
  sound = IsSound-kept.at_device parses_ip fault now tm name s.db h.sound;
  coherent = IsCoherent-kept.at_device parses_ip fault now tm name s.db h.coherent;
  rows_coherent = h.rows_coherent;
}
Step-AreFit {s = s} (beats fault now id) h = record {
  sound = IsSound-kept.at_heartbeat fault now id s.db h.sound;
  coherent = IsCoherent-kept.at_heartbeat fault now id s.db h.coherent;
  rows_coherent = h.rows_coherent;
}
Step-AreFit {s = s} (leaves fault id) h = record {
  sound = IsSound-kept.at_offline fault id s.db h.sound;
  coherent = IsCoherent-kept.at_offline fault id s.db h.coherent;
  rows_coherent = h.rows_coherent;
}

Reach-AreFit : {s t : Shared} → Reach s t → AreFit s → AreFit t
Reach-AreFit here h = h
Reach-AreFit (next r step) h = Step-AreFit step (Reach-AreFit r h)

-- However the statements of the handlers and of the timeout task interleave, with rows written back
-- at any time after they were read and with any of the statements failing: from a database where
-- the constraints of the schema hold and every task fits its claim, they hold and fit afterwards,
-- and a task `a` that is stored stays stored, with its URL, its team and its creator.
pub Reach-keeps :
    (s t : Shared) (k : ℕ) (a : Task)
    → Reach s t
    → AreFit s
    → stored s.db k ≡ some a
    → IsSound t.db × IsCoherent t.db × Stays k a t.db
Reach-keeps s t k a r fit at =
    let after = Reach-AreFit r fit in
    (after.sound, after.coherent, Reach-Stays k a r (a, at, (refl, refl, refl)))
