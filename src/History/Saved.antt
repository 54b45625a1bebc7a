-- ===== src/History/Saved.antt =====
-- src/history.rs: what a later start of the program finds.
use x_videos_dowloads.Prelude.{
  ℕ, map, none, ◌≤◌, ◌≡◌, refl, ap, String, Bool, false, not, List, [], ◌∷◌, retain, any, str_eq,
  Option, some, All, Bool-cases, inl, inr, ◌==◌, length, arith, ok,
}
use x_videos_dowloads.History.{
  HistoryEntry, BookmarkEntry, Stored, list, other, Disk, read_entry, load, State, Fault, fine,
  Change, entry_added, entry_removed, cleared, bookmark_added, bookmark_removed, change, changes,
  add_entry, remove_entry, clear, add_bookmark, remove_bookmark,
}

length-retain : {A : Type 0} (p : A → Bool) (xs : List A) → length (retain p xs) ≤ length xs
length-retain p [] = omega arith
length-retain p (x ∷ xs) = elim (Bool-cases (p x)) [
  | inl t ↦ rw t (omega (arith, length-retain p xs))
  | inr f ↦ rw f (omega (arith, length-retain p xs))
]

-- Where no element is dropped, the list is as it was.
retain_all :
    {A : Type 0} (p : A → Bool) (xs : List A) → length (retain p xs) ≡ length xs → retain p xs ≡ xs
retain_all p [] e = refl
retain_all p (x ∷ xs) e = elim (Bool-cases (p x)) [
  | inl t ↦ rw t (ap (◌∷◌ x) (retain_all p xs (omega (arith, rw t at e))))
  | inr f ↦ absurd (omega (arith, rw f at e, length-retain p xs))
]

-- An entry without its duration.
abbrev pub timeless : HistoryEntry → HistoryEntry
timeless e = record e { duration_secs = none }

-- The files hold the entries of the program up to their durations, and its bookmarks.
abbrev pub IsSaved : (float : ℕ → Option ℕ) → State → Type 0
IsSaved float s =
    (map timeless (load float s.disk).entries ≡ map timeless s.history.entries)
    × ((load float s.disk).bookmarks ≡ s.history.bookmarks)

timeless-read_entry :
    (float : ℕ → Option ℕ) (es : List HistoryEntry)
    → map timeless (map (read_entry float) es) ≡ map timeless es
timeless-read_entry float [] = refl
timeless-read_entry float (e ∷ es) = rw (timeless-read_entry float es)

abbrev pub IsFine : Fault × Change → Type 0
IsFine c = c.0 ≡ fine

change-IsSaved :
    (float : ℕ → Option ℕ) (c : Change) (s : State)
    → IsSaved float s
    → IsSaved float (change fine c s)
unfolding change add_entry remove_entry clear add_bookmark remove_bookmark
change-IsSaved float (entry_added entry) s h =
    (timeless-read_entry float (entry ∷ s.history.entries), refl)
change-IsSaved float (entry_removed id) s h =
    let kept = retain (λ (e : HistoryEntry). not (e.id == id)) s.history.entries in
    elim (Bool-cases (length kept == length s.history.entries)) [
      | inl t ↦
          let same =
            retain_all (λ (e : HistoryEntry). not (e.id == id)) s.history.entries (ground arith) in
          rw (change, t, same) h
      | inr f ↦ rw (change, f) (timeless-read_entry float kept, refl)
    ]
change-IsSaved float cleared s h = (refl, refl)
change-IsSaved float (bookmark_added bookmark) s h =
    elim (Bool-cases (any (λ (b : BookmarkEntry). str_eq b.url bookmark.url) s.history.bookmarks)) [
      | inl t ↦ rw (change, t) h
      | inr f ↦ rw (change, f) (timeless-read_entry float s.history.entries, refl)
    ]
change-IsSaved float (bookmark_removed id) s h =
    let kept = retain (λ (b : BookmarkEntry). not (b.id == id)) s.history.bookmarks in
    elim (Bool-cases (length kept == length s.history.bookmarks)) [
      | inl t ↦
          let same =
            retain_all (λ (b : BookmarkEntry). not (b.id == id)) s.history.bookmarks
              (ground arith) in
          rw (change, t, same) h
      | inr f ↦ rw (change, f) (timeless-read_entry float s.history.entries, refl)
    ]

changes-IsSaved :
    (float : ℕ → Option ℕ) (cs : List (Fault × Change)) (s : State)
    → All IsFine cs
    → IsSaved float s
    → IsSaved float (changes cs s)
unfolding changes
changes-IsSaved float [] s h saved = saved
changes-IsSaved float ((fault, c) ∷ cs) s h saved =
    rw h.0 (changes-IsSaved float cs (change fine c s) h.1 (change-IsSaved float c s saved))

-- `History::new` on these files.
abbrev pub started : (float : ℕ → Option ℕ) → Disk → State
started float disk = record { history = load float disk; disk = disk }

-- After any changes whose writes all succeed, from a history that has just been loaded, loading the
-- files again gives the entries as they stand but for their durations, in their order, and exactly
-- the bookmarks, whatever is read for a number that was written.
pub load-changes :
    (float : ℕ → Option ℕ) (cs : List (Fault × Change)) (disk : Disk)
    → All IsFine cs
    → let last = changes cs (started float disk) in
      (map timeless (load float last.disk).entries ≡ map timeless last.history.entries)
      × ((load float last.disk).bookmarks ≡ last.history.bookmarks)
load-changes float cs disk h = changes-IsSaved float cs (started float disk) h (refl, refl)

abbrev pub unreadable : (text : String) → Option (Stored BookmarkEntry) → State
unreadable text bookmark_file =
    started some (record { history_file = some (other text); bookmark_file = bookmark_file })

-- A file of the history that does not parse is taken for an empty one without an error, and the
-- first bookmark that is added replaces it with an empty list.
pub load-other :
    (text : String) (bookmark_file : Option (Stored BookmarkEntry)) (bookmark : BookmarkEntry)
    → any
        (λ (b : BookmarkEntry). str_eq b.url bookmark.url)
        (unreadable text bookmark_file).history.bookmarks
      ≡ false
    → ((add_bookmark fine bookmark (unreadable text bookmark_file)).0 ≡ ok tt)
      × ((add_bookmark fine bookmark (unreadable text bookmark_file)).1.disk.history_file
          ≡ some (list []))
unfolding add_bookmark
load-other text bookmark_file bookmark fresh = rw fresh (refl, refl)
