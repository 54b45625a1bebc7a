-- ===== src/History/Tests.antt =====
-- src/history.rs on concrete entries and bookmarks.
use x_videos_dowloads.Prelude.{
  ℕ, ◌≡◌, refl, String, List, [], ◌∷◌, map, Option, none, some, ok, All,
}
use x_videos_dowloads.History.{
  HistoryEntry, BookmarkEntry, list, Disk, load, Fault, fine, within_history, Change, entry_added,
  entry_removed, bookmark_added, bookmark_removed, changes, add_bookmark, get_recent,
}
use x_videos_dowloads.History.Bookmarks.{AreDistinct, changes-AreDistinct}
use x_videos_dowloads.History.Saved.{
  IsFine, timeless, started, unreadable, load-changes, load-other,
}

abbrev entry : ℕ → String → HistoryEntry
entry id url = record {
  id = id;
  url = url;
  title = some "Video";
  file_path = none;
  file_size = some 1024;
  downloaded_at = id;
  duration_secs = none;
}

abbrev bookmark : ℕ → String → BookmarkEntry
bookmark id url = record { id = id; url = url; title = none; added_at = id; note = none }

abbrev no_files : Disk
no_files = record { history_file = none; bookmark_file = none }

-- Every number is read as `null`.
abbrev none_read : ℕ → Option ℕ
none_read x = none

-- The second bookmark is refused, and the third takes the place of the first.
abbrev edits : List (Fault × Change)
edits =
    (fine, entry_added (entry 1 "https://a"))
    ∷ (fine, entry_added (entry 2 "https://b"))
    ∷ (fine, bookmark_added (bookmark 3 "https://a"))
    ∷ (fine, bookmark_added (bookmark 4 "https://a"))
    ∷ (fine, bookmark_removed 3)
    ∷ (fine, bookmark_added (bookmark 5 "https://a"))
    ∷ (fine, entry_removed 1)
    ∷ []

edits-IsFine : All IsFine edits
edits-IsFine = (refl, (refl, (refl, (refl, (refl, (refl, (refl, tt)))))))

load-changes_example :
    let last = changes edits (started none_read no_files) in
    (map timeless (load none_read last.disk).entries ≡ map timeless last.history.entries)
    × ((load none_read last.disk).bookmarks ≡ last.history.bookmarks)
load-changes_example = load-changes none_read edits no_files edits-IsFine

changes-AreDistinct_example : AreDistinct (
    changes
      ((within_history "[", bookmark_added (bookmark 3 "https://a")) ∷ edits)
      (started some no_files))
changes-AreDistinct_example =
    changes-AreDistinct ((within_history "[", bookmark_added (bookmark 3 "https://a")) ∷ edits)
      (started some no_files) tt

load-other_example :
    ((add_bookmark fine (bookmark 3 "https://a") (unreadable "[{" none)).0 ≡ ok tt)
    × ((add_bookmark fine (bookmark 3 "https://a") (unreadable "[{" none)).1.disk.history_file
        ≡ some (list []))
load-other_example = load-other "[{" none (bookmark 3 "https://a") refl

newest_first :
    get_recent 1 (
      load some (record {
        history_file = some (list (entry 2 "https://b" ∷ entry 1 "https://a" ∷ []));
        bookmark_file = none;
      }))
    ≡ entry 2 "https://b" ∷ []
newest_first = refl
