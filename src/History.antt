-- ===== src/History.antt =====
-- src/history.rs: `History`, and the two files it is stored in. The JSON of a file is a value of
-- `Stored`, where `float` says what is read for a duration that was written: a number, or none where
-- it was written as `null`, as NaN and the infinities are; the identifier and the time of an entry are drawn, and the lower case of a text is a
-- parameter, for the tables of Unicode.
pub mod Saved
pub mod Bookmarks
pub mod Tests
use x_videos_dowloads.Prelude.{
  ℕ, String, Bool, true, false, not, ◌||◌, List, [], ◌∷◌, ◌++◌, Option, none, some, Result, ok, err,
  ◌==◌, if◌then◌else◌, min, length, map, take, any, retain, str_eq, contains,
}

pub record HistoryEntry : Type 0 where
  pub id : ℕ
  pub url : String
  pub title : Option String
  pub file_path : Option String
  pub file_size : Option ℕ
  pub downloaded_at : ℕ
  pub duration_secs : Option ℕ

pub record BookmarkEntry : Type 0 where
  pub id : ℕ
  pub url : String
  pub title : Option String
  pub added_at : ℕ
  pub note : Option String

pub record History : Type 0 where
  pub entries : List HistoryEntry
  pub bookmarks : List BookmarkEntry

-- What a file holds: the JSON of a list, or some other text.
pub data Stored {ℓ} (A : Type ℓ) : Type ℓ where
  list : List A → Stored A
  other : String → Stored A

-- `history.json` and `bookmarks.json`, each where it exists.
pub record Disk : Type 0 where
  pub history_file : Option (Stored HistoryEntry)
  pub bookmark_file : Option (Stored BookmarkEntry)

-- `serde_json::from_str(&content).unwrap_or_default()`
abbrev pub parsed {ℓ} : {A : Type ℓ} → Option (Stored A) → List A
parsed none = []
parsed (some (list items)) = items
parsed (some (other text)) = []

-- An entry as it is read, its duration being optional.
abbrev pub read_duration : (float : ℕ → Option ℕ) → Option ℕ → Option ℕ
read_duration float none = none
read_duration float (some secs) = float secs

abbrev pub read_entry : (float : ℕ → Option ℕ) → HistoryEntry → HistoryEntry
read_entry float e = record e { duration_secs = read_duration float e.duration_secs }

-- `History::new`, where both files can be read.
abbrev pub load : (float : ℕ → Option ℕ) → Disk → History
load float disk = record {
  entries = map (read_entry float) (parsed disk.history_file);
  bookmarks = parsed disk.bookmark_file;
}

-- What a save meets: no error, or an error before or within the write of a file, which is cut off
-- first and then holds some text.
pub data Fault : Type 0 where
  fine : Fault
  before_history : Fault
  within_history : (text : String) → Fault
  before_bookmarks : Fault
  within_bookmarks : (text : String) → Fault

-- `save`
abbrev pub save : Fault → History → Disk → Result (Unit {0}) × Disk
save fine h disk = (
  ok tt,
  record { history_file = some (list h.entries); bookmark_file = some (list h.bookmarks) },
)
save before_history h disk = (err "io", disk)
save (within_history text) h disk = (err "io", record disk { history_file = some (other text) })
save (within_bookmarks text) h disk =
    (err "io", record { history_file = some (list h.entries); bookmark_file = some (other text) })
save before_bookmarks h disk = (err "io", record disk { history_file = some (list h.entries) })

-- A history, and its files.
pub record State : Type 0 where
  pub history : History
  pub disk : Disk

-- The state after a change that is saved.
abbrev pub saved : Fault → History → State → Result (Unit {0}) × State
saved fault h s =
    let (result, disk) = save fault h s.disk in (result, record { history = h; disk = disk })

-- `add_entry`; the newest entry stands first.
unfoldable pub add_entry : Fault → HistoryEntry → State → Result (Unit {0}) × State
add_entry fault entry s = saved fault (record s.history { entries = entry ∷ s.history.entries }) s

-- `get_recent`
abbrev pub get_recent : (count : ℕ) → History → List HistoryEntry
get_recent count h = take (min count (length h.entries)) h.entries

abbrev pub title_contains : (to_lowercase : String → String) (query : String) → Option String → Bool
title_contains to_lowercase query none = false
title_contains to_lowercase query (some title) = contains (to_lowercase title) query

-- `search`
unfoldable pub search :
    (to_lowercase : String → String) (query : String) → History → List HistoryEntry
search to_lowercase query h =
    let query_lower = to_lowercase query in
    retain
      (λ (e : HistoryEntry).
        contains (to_lowercase e.url) query_lower
        || title_contains to_lowercase query_lower e.title)
      h.entries

-- `remove_entry`; whether the files could be written does not matter to its answer.
unfoldable pub remove_entry : Fault → (id : ℕ) → State → Bool × State
remove_entry fault id s =
    let kept = retain (λ (e : HistoryEntry). not (e.id == id)) s.history.entries in
    let h = record s.history { entries = kept } in
    if length kept == length s.history.entries
    then (false, record s { history = h })
    else (true, (saved fault h s).1)

-- `clear`
unfoldable pub clear : Fault → State → Result (Unit {0}) × State
clear fault s = saved fault (record s.history { entries = [] }) s

-- `add_bookmark`
unfoldable pub add_bookmark : Fault → BookmarkEntry → State → Result (Unit {0}) × State
add_bookmark fault bookmark s =
    if any (λ (b : BookmarkEntry). str_eq b.url bookmark.url) s.history.bookmarks
    then (err "URL 已存在", s)
    else saved fault (record s.history { bookmarks = s.history.bookmarks ++ bookmark ∷ [] }) s

-- `remove_bookmark`
unfoldable pub remove_bookmark : Fault → (id : ℕ) → State → Bool × State
remove_bookmark fault id s =
    let kept = retain (λ (b : BookmarkEntry). not (b.id == id)) s.history.bookmarks in
    let h = record s.history { bookmarks = kept } in
    if length kept == length s.history.bookmarks
    then (false, record s { history = h })
    else (true, (saved fault h s).1)

-- A change of the history, and the fault that its write meets.
pub data Change : Type 0 where
  entry_added : (entry : HistoryEntry) → Change
  entry_removed : (id : ℕ) → Change
  cleared : Change
  bookmark_added : (bookmark : BookmarkEntry) → Change
  bookmark_removed : (id : ℕ) → Change

unfoldable pub change : Fault → Change → State → State
unfolding add_entry remove_entry clear add_bookmark remove_bookmark
change fault (entry_added entry) s = (add_entry fault entry s).1
change fault (entry_removed id) s = (remove_entry fault id s).1
change fault cleared s = (clear fault s).1
change fault (bookmark_added bookmark) s = (add_bookmark fault bookmark s).1
change fault (bookmark_removed id) s = (remove_bookmark fault id s).1

unfoldable pub changes : List (Fault × Change) → State → State
changes [] s = s
changes ((fault, c) ∷ cs) s = changes cs (change fault c s)
