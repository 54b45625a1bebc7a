-- ===== src/Handler/Interleaved.antt =====
-- src/collaboration/server/ws.rs and src/collaboration/server/handler.rs: the connections and the
-- timeout task run at once. The database takes one call at a time, under the lock of its connection,
-- but a handler holds no lock between the call that reads a task and the one that writes it. Here a
-- step is one call, and a row that was read may be written back at any time.
pub mod Fits
pub mod Stale
use x_videos_dowloads.Prelude.{ℕ, ◌≡◌, inr, ◌⊎◌, String, Bool, List, [], ◌∷◌, Option, some}
use x_videos_dowloads.Types.{Task}
use x_videos_dowloads.HashRing.{Hasher}
use x_videos_dowloads.Db.Schema.{Database}
use x_videos_dowloads.Db.Tasks.{create_task, update_task, release_task}
use x_videos_dowloads.Db.Teams.{create_team}
use x_videos_dowloads.Db.Devices.{register_device, update_device_heartbeat, set_device_offline}
use x_videos_dowloads.Handler.State.{Server, Env, new_server}
use x_videos_dowloads.Handler.Teams.{placeholder}
use x_videos_dowloads.Handler.Tasks.{added_task, assigned, read_one}
use x_videos_dowloads.Handler.Kept.{Change}

-- The database, and the rows that some handler has read.
pub record Shared : Type 0 where
  pub db : Database
  pub rows : List Task

-- The row is one of these.
abbrev pub IsHeld : Task → List Task → Type 0
IsHeld t [] = ⊥
IsHeld t (row ∷ rows) = (t ≡ row) ⊎ IsHeld t rows

-- The statements of the handlers and of the timeout task.
pub data Step (s : Shared) : Shared → Type 0 where
  reads :
      (fault : Option String) (team_id task_id : ℕ) (server : Server) (t : Task)
      → server.db ≡ s.db
      → read_one fault team_id task_id server ≡ some t
      → Step s (record s { rows = t ∷ s.rows })
  -- A row that was read, changed by a claim, a progress or a completion.
  changes :
      (fault : Option String) (env : Env) (device_id team_id : ℕ) (t u : Task)
      → IsHeld t s.rows
      → Change env device_id t u
      → Step s (record s { db = (update_task fault u team_id s.db).1 })
  -- The timeout task knows the task from a read of its own, and does not look at it again.
  releases :
      (fault : Option String) (task_id : ℕ)
      → Step s (record s { db = (release_task fault task_id s.db).1 })
  adds :
      (fault : Option String) (env : Env) (device_id team_id : ℕ) (url : String)
      → Step s (record s {
        db = (create_task fault (added_task env device_id team_id url) team_id s.db).1;
      })
  assigns :
      (fault : Option String) (env : Env) (device_id team_id owner_id : ℕ) (url : String)
      → Step s (record s {
        db =
            (update_task fault
              (assigned env owner_id (added_task env device_id team_id url))
              team_id
              s.db).1;
      })
  creates_team :
      (fault : Option String) (id now : ℕ) (draw : ℕ → ℕ) (name : String)
      → Step s (record s { db = (create_team fault id now draw name s.db).1 })
  registers :
      (parses_ip : String → Bool) (fault : Option String) (now team_id : ℕ) (name : String)
      → Step s (record s {
        db = (register_device parses_ip fault (placeholder now team_id name) s.db).1;
      })
  beats :
      (fault : Option String) (now id : ℕ)
      → Step s (record s { db = (update_device_heartbeat fault now id s.db).1 })
  leaves :
      (fault : Option String) (id : ℕ)
      → Step s (record s { db = (set_device_offline fault id s.db).1 })

-- Any number of steps.
pub data Reach (s : Shared) : Shared → Type 0 where
  here : Reach s s
  next : {t u : Shared} → Reach s t → Step t u → Reach s u

-- The database is reached by an interleaving.
abbrev pub Reaches : Shared → Database → Type 0
Reaches start db = (rows : List Task) × Reach start (record { db = db; rows = rows })

one :
    (start : Shared) (db after : Database)
    → ((rows : List Task)
        → Step (record { db = db; rows = rows }) (record { db = after; rows = rows }))
    → Reaches start db
    → Reaches start after
one start db after step (rows, r) = (rows, next r (step rows))
