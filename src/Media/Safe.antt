-- ===== src/Media/Safe.antt =====
-- src/types.rs: what is left of a file name.
use Prim.Native.Char.{Char, char, code}
use x_videos_dowloads.Prelude.{
  ℕ, zero, suc, ◌≤◌, ◌≡◌, ◌∙◌, refl, sym, ap, String, Bool, true, false, ◌||◌, ◌==◌, is_empty,
  arith, Bool-cases, inl, inr, ◌⊎◌,
}
use x_videos_dowloads.Prelude.Colon.{has}
use x_videos_dowloads.Media.Names.{
  starts, has_dots, has_path_traversal, is_kept, clean, clean_name, sanitize_filename,
}

-- How many characters a text has.
unfoldable pub count : String → ℕ
count String.[] = 0
count (String.◌∷◌ ch s) = suc (count s)

-- What is relied on of `char::is_alphanumeric`: small Latin letters are, and the separators and the
-- tilde are not.
pub record IsAlphanumeric (is_alphanumeric : Char → Bool) : Type 0 where
  pub letters : (ch : Char) → 97 ≤ code ch → code ch ≤ 122 → is_alphanumeric ch ≡ true
  pub slash : (ch : Char) → code ch ≡ 47 → is_alphanumeric ch ≡ false
  pub backslash : (ch : Char) → code ch ≡ 92 → is_alphanumeric ch ≡ false
  pub tilde : (ch : Char) → code ch ≡ 126 → is_alphanumeric ch ≡ false

-- A name that is good to be the last component of a path.
pub record IsSafe (name : String) : Type 0 where
  pub some_character : is_empty name ≡ false
  pub short : count name ≤ 200
  pub one_component : has 47 name ≡ false
  pub no_dots : has_dots name ≡ false

video-IsSafe : IsSafe "video"
unfolding count has has_dots
video-IsSafe = record {
  some_character = refl;
  short = omega arith;
  one_component = refl;
  no_dots = refl;
}

module _ (is_alphanumeric : Char → Bool) (h : IsAlphanumeric is_alphanumeric) where
  abbrev cleaned : Char → Char
  cleaned = clean is_alphanumeric

  abbrev cleaned_name : ℕ → String → String
  cleaned_name = clean_name is_alphanumeric

  -- A character that is kept or replaced by an underscore.
  clean-cases : (ch : Char) → (cleaned ch ≡ ch) ⊎ (cleaned ch ≡ char 95 tt)
  clean-cases ch = elim (Bool-cases (is_kept is_alphanumeric ch)) [
    | inl t ↦ inl (rw t)
    | inr f ↦ inr (rw f)
  ]

  underscore : is_kept is_alphanumeric (char 95 tt) ≡ true
  underscore = elim (Bool-cases (is_alphanumeric (char 95 tt))) [ inl t ↦ rw t | inr f ↦ rw f ]

  clean-clean : (ch : Char) → cleaned (cleaned ch) ≡ cleaned ch
  clean-clean ch = elim (clean-cases ch) [
    | inl e ↦ ap cleaned e
    | inr e ↦ let u : cleaned (char 95 tt) ≡ char 95 tt = rw underscore in ap cleaned e ∙ u ∙ sym e
  ]

  clean_name-again : (n : ℕ) (s : String) → cleaned_name n (cleaned_name n s) ≡ cleaned_name n s
  unfolding clean_name
  clean_name-again zero s = refl
  clean_name-again (suc n) String.[] = refl
  clean_name-again (suc n) (String.◌∷◌ ch s) = rw (clean-clean ch, clean_name-again n s)

  -- A character that is not kept is not there afterwards.
  clean-away :
      (c : ℕ) (ch : Char)
      → ((d : Char) → code d ≡ c → is_alphanumeric d ≡ false)
      → (c == 45) || ((c == 95) || (c == 46)) ≡ false
      → (code (cleaned ch) == c) ≡ false
  clean-away c ch gone other = elim (Bool-cases (code ch == c)) [
    | inl t ↦
        let here : code ch ≡ c = ground arith in
        let not_kept : is_kept is_alphanumeric ch ≡ false = rw (gone ch here, here) other in
        rw not_kept (ground arith)
    | inr f ↦ elim (clean-cases ch) [ inl e ↦ rw e f | inr e ↦ rw e (ground arith) ]
  ]

  clean_name-away :
      (c n : ℕ) (s : String)
      → ((d : Char) → code d ≡ c → is_alphanumeric d ≡ false)
      → (c == 45) || ((c == 95) || (c == 46)) ≡ false
      → has c (cleaned_name n s) ≡ false
  unfolding clean_name has
  clean_name-away c zero s gone other = refl
  clean_name-away c (suc n) String.[] gone other = refl
  clean_name-away c (suc n) (String.◌∷◌ ch s) gone other =
      rw (clean-away c ch gone other, clean_name-away c n s gone other)

  starts-has : (c : ℕ) (s : String) → has c s ≡ false → starts c s ≡ false
  unfolding has
  starts-has c String.[] h = refl
  starts-has c (String.◌∷◌ ch s) h = ground arith

  -- No dot is new.
  clean-dot : (ch : Char) → (code (cleaned ch) == 46) ≡ (code ch == 46)
  clean-dot ch = elim (Bool-cases (code ch == 46)) [
    | inl t ↦
        let kept : is_kept is_alphanumeric ch ≡ true = elim (Bool-cases (is_alphanumeric ch)) [
          | inl a ↦ rw a
          | inr a ↦ rw a (ground arith)
        ] in
        rw kept
    | inr f ↦ elim (clean-cases ch) [ inl e ↦ rw e | inr e ↦ rw (e, f) ]
  ]

  starts-clean_name :
      (n : ℕ) (s : String) → starts 46 s ≡ false → starts 46 (cleaned_name n s) ≡ false
  unfolding clean_name
  starts-clean_name zero s f = refl
  starts-clean_name (suc n) String.[] f = refl
  starts-clean_name (suc n) (String.◌∷◌ ch s) f = clean-dot ch ∙ f

  has_dots-clean_name :
      (n : ℕ) (s : String) → has_dots s ≡ false → has_dots (cleaned_name n s) ≡ false
  unfolding clean_name has_dots
  has_dots-clean_name zero s f = refl
  has_dots-clean_name (suc n) String.[] f = refl
  has_dots-clean_name (suc n) (String.◌∷◌ ch s) f =
      let rest = has_dots-clean_name n s (ground arith) in
      elim (Bool-cases (code ch == 46)) [
        | inl t ↦
            let next : starts 46 s ≡ false = ground arith in
            rw (clean-dot ch, t, starts-clean_name n s next, rest)
        | inr apart ↦ rw (clean-dot ch, apart, rest)
      ]

  count-clean_name : (n : ℕ) (s : String) → count (cleaned_name n s) ≤ n
  unfolding clean_name count
  count-clean_name zero s = omega arith
  count-clean_name (suc n) String.[] = omega arith
  count-clean_name (suc n) (String.◌∷◌ ch s) = omega (arith, count-clean_name n s)

  sanitize_filename-cases :
      (name : String)
      → (sanitize_filename is_alphanumeric name ≡ "video")
        ⊎ ((sanitize_filename is_alphanumeric name ≡ cleaned_name 200 name)
            × (has_dots name ≡ false)
            × (is_empty (cleaned_name 200 name) ≡ false))
  unfolding sanitize_filename
  sanitize_filename-cases name = elim (Bool-cases (has_path_traversal name)) [
    | inl t ↦ inl (rw t)
    | inr f ↦ elim (Bool-cases (is_empty (cleaned_name 200 name))) [
      | inl t ↦ inl (rw (f, t))
      | inr g ↦ let plain : has_dots name ≡ false = ground arith in inr (rw (f, g), plain, g)
    ]
  ]

  -- Whatever the name, what `sanitize_filename` returns is not empty, has at most 200 characters,
  -- no `/`, and no `..`.
  pub sanitize_filename-IsSafe : (name : String) → IsSafe (sanitize_filename is_alphanumeric name)
  sanitize_filename-IsSafe name = elim (sanitize_filename-cases name) [
    | inl e ↦ rw e video-IsSafe
    | inr (e, plain, full) ↦ rw e (record {
      some_character = full;
      short = count-clean_name 200 name;
      one_component = clean_name-away 47 200 name h.slash refl;
      no_dots = has_dots-clean_name 200 name plain;
    })
  ]

  traversal-clean_name :
      (n : ℕ) (name : String)
      → has_dots name ≡ false
      → has_path_traversal (cleaned_name n name) ≡ false
  traversal-clean_name n name plain = rw (
    has_dots-clean_name n name plain,
    starts-has 47 (cleaned_name n name) (clean_name-away 47 n name h.slash refl),
    starts-has 92 (cleaned_name n name) (clean_name-away 92 n name h.backslash refl),
    starts-has 126 (cleaned_name n name) (clean_name-away 126 n name h.tilde refl),
  )

  letter : (ch : Char) → 97 ≤ code ch → code ch ≤ 122 → cleaned ch ≡ ch
  letter ch low high = rw (h.letters ch low high)

  video-again : sanitize_filename is_alphanumeric "video" ≡ "video"
  unfolding sanitize_filename clean_name has_dots
  video-again = rw (
    letter (char 118 tt) (omega arith) (omega arith),
    letter (char 105 tt) (omega arith) (omega arith),
    letter (char 100 tt) (omega arith) (omega arith),
    letter (char 101 tt) (omega arith) (omega arith),
    letter (char 111 tt) (omega arith) (omega arith),
  )

  -- A name that has been sanitized stays as it is when it is sanitized again.
  pub sanitize_filename-again :
      (name : String)
      → sanitize_filename is_alphanumeric (sanitize_filename is_alphanumeric name)
        ≡ sanitize_filename is_alphanumeric name
  unfolding sanitize_filename
  sanitize_filename-again name = elim (sanitize_filename-cases name) [
    | inl e ↦ rw e video-again
    | inr (e, plain, full) ↦
        rw (e, traversal-clean_name 200 name plain, clean_name-again 200 name, full)
  ]
