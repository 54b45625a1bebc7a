-- ===== src/Queue/Saved.antt =====
-- src/collaboration/client/queue.rs: what a later start of the client finds in the file.
use x_videos_dowloads.Prelude.{
  ℕ, ◌≡◌, Bool, true, false, List, [], ◌∷◌, map, Option, none, some, Result, ok, ◌⊎◌, is_ok, ◌&&◌,
}
use x_videos_dowloads.Float.{is_finite}
use x_videos_dowloads.Types.{Task}
use x_videos_dowloads.Queue.{LocalQueue, Stored, Fault, fine, Op, parse_tasks}

-- What `serde_json` documents: a finite number is written as a number and read as a finite one,
-- which need not be the same; NaN and the infinities are written as `null`.
pub record IsJson (float : ℕ → Option ℕ) : Type 0 where
  pub number : (x : ℕ) → is_finite x ≡ true → (y : ℕ) × (float x ≡ some y) × (is_finite y ≡ true)
  pub null : (x : ℕ) → is_finite x ≡ false → float x ≡ none

-- A task without its progress.
abbrev pub settled : Task → Task
settled t = record t { progress = 0 }

-- All the numbers of the tasks are finite.
unfoldable pub are_finite : List Task → Bool
are_finite [] = true
are_finite (t ∷ ts) = is_finite t.progress && are_finite ts

-- The tasks of a file; where there is none, there are no tasks.
abbrev pub from_file : (float : ℕ → Option ℕ) → Option Stored → Option (List Task)
from_file float none = some []
from_file float (some stored) = parse_tasks float stored

abbrev pub IsWritten : Fault × Op → Type 0
IsWritten e = e.0 ≡ fine

-- These tasks were read for those.
abbrev pub ReadsBack : Option (List Task) → List Task → Type 0
ReadsBack read tasks =
    ((found : List Task) × (read ≡ some found)
      × (map settled found ≡ map settled tasks)
      × (are_finite found ≡ true)
      × (are_finite tasks ≡ true))
    ⊎ ((read ≡ none) × (are_finite tasks ≡ false))

module _ (float : ℕ → Option ℕ) (is : IsJson float) where
  -- The file gives the tasks in memory up to their progress, if that is finite.
  abbrev IsSaved : LocalQueue → Type 0
  IsSaved q = ReadsBack (from_file float q.state_file) q.tasks

-- What opening a queue gives for these tasks: the tasks up to their progress where all of it is
-- finite, and an error where some of it is not.
abbrev pub Reopens : Result LocalQueue → List Task → Type 0
Reopens r tasks =
    ((q : LocalQueue) × (r ≡ ok q)
      × (map settled q.tasks ≡ map settled tasks)
      × (are_finite tasks ≡ true))
    ⊎ ((is_ok r ≡ false) × (are_finite tasks ≡ false))
