-- ===== src/History/Bookmarks.antt =====
-- src/history.rs: the bookmarks after any changes.
use x_videos_dowloads.Prelude.{
  String, not, List, [], ◌∷◌, map, any, retain, Distinct, Distinct-retain, Distinct-map-append,
  str_eq, Bool-cases, inl, inr, ◌==◌, length,
}
use x_videos_dowloads.History.{
  BookmarkEntry, State, Fault, Change, entry_added, entry_removed, cleared, bookmark_added,
  bookmark_removed, change, changes, add_entry, remove_entry, clear, add_bookmark, remove_bookmark,
}

abbrev pub urls : List BookmarkEntry → List String
urls bookmarks = map (λ (b : BookmarkEntry). b.url) bookmarks

abbrev pub AreDistinct : State → Type 0
AreDistinct s = Distinct str_eq (urls s.history.bookmarks)

change-AreDistinct :
    (fault : Fault) (c : Change) (s : State) → AreDistinct s → AreDistinct (change fault c s)
unfolding change add_entry remove_entry clear add_bookmark remove_bookmark
change-AreDistinct fault (entry_added entry) s d = d
change-AreDistinct fault (entry_removed id) s d =
    elim (Bool-cases
      (length (retain (λ e. not (e.id == id)) s.history.entries) == length s.history.entries)) [
        | inl t ↦ rw (change, t) d
        | inr f ↦ rw (change, f) d
      ]
change-AreDistinct fault cleared s d = d
change-AreDistinct fault (bookmark_added bookmark) s d =
    elim (Bool-cases (any (λ (b : BookmarkEntry). str_eq b.url bookmark.url) s.history.bookmarks)) [
      | inl t ↦ rw (change, t) d
      | inr f ↦
          rw (change, f)
            (Distinct-map-append str_eq (λ (b : BookmarkEntry). b.url) s.history.bookmarks bookmark
              f d)
    ]
change-AreDistinct fault (bookmark_removed id) s d =
    let kept =
      Distinct-retain str_eq (λ (b : BookmarkEntry). b.url) (λ b. not (b.id == id))
        s.history.bookmarks d in
    elim (Bool-cases
      (length (retain (λ b. not (b.id == id)) s.history.bookmarks) == length s.history.bookmarks)) [
        | inl t ↦ rw (change, t) kept
        | inr f ↦ rw (change, f) kept
      ]

-- Bookmarks whose URLs are distinct stay so through any changes, whether or not these are written to
-- the disk.
pub changes-AreDistinct :
    (cs : List (Fault × Change)) (s : State) → AreDistinct s → AreDistinct (changes cs s)
unfolding changes
changes-AreDistinct [] s d = d
changes-AreDistinct ((fault, c) ∷ cs) s d =
    changes-AreDistinct cs (change fault c s) (change-AreDistinct fault c s d)
