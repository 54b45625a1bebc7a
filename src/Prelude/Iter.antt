-- ===== src/Prelude/Iter.antt =====
-- Rust's iterator methods with a Boolean test, and the SQL statements that go through a table.
use mathlib.Core.Path.{◌≡◌, refl, subst, sym}
use mathlib.Core.Bool.{Bool, true, false, ◌||◌, ◌&&◌}
use mathlib.Core.Logic.{inl, inr}
use mathlib.Core.List.{List, [], ◌∷◌, ◌++◌, map}
use mathlib.Core.Option.{Option, none, some}
use native.Mathlib.Omega.{arith}
use x_videos_dowloads.Prelude.Tests.{if◌then◌else◌, is_some, Bool-cases}

module _ {ℓ} {A : Type ℓ} where
  -- `iter().any(p)`
  abbrev pub any : (A → Bool) → List A → Bool
  any p [] = false
  any p (x ∷ xs) = p x || any p xs

  -- `iter().find(p)`, and a query that reads its first row
  abbrev pub find : (A → Bool) → List A → Option A
  find p [] = none
  find p (x ∷ xs) = if p x then some x else find p xs

  -- `retain(p)`, `iter().filter(p).collect()`, and `SELECT … WHERE p`
  abbrev pub retain : (A → Bool) → List A → List A
  retain p [] = []
  retain p (x ∷ xs) = let rest = retain p xs in if p x then x ∷ rest else rest

  -- `UPDATE … SET f WHERE p`
  abbrev pub update_where : (A → Bool) → (A → A) → List A → List A
  update_where p f [] = []
  update_where p f (x ∷ xs) = (if p x then f x else x) ∷ update_where p f xs

  -- Every element satisfies `P`.
  abbrev pub All {κ} : (A → Type κ) → List A → Type κ
  All P [] = Unit
  All P (x ∷ xs) = P x × All P xs

  pub All-append {κ} : (P : A → Type κ) (xs ys : List A) → All P xs → All P ys → All P (xs ++ ys)
  All-append P [] ys hx hy = hy
  All-append P (x ∷ xs) ys hx hy = (hx.0, All-append P xs ys hx.1 hy)

  pub All-map {κ κ'} :
      (P : A → Type κ) (Q : A → Type κ') (f : (x : A) → P x → Q x) (xs : List A)
      → All P xs
      → All Q xs
  All-map P Q f [] h = tt
  All-map P Q f (x ∷ xs) h = (f x h.0, All-map P Q f xs h.1)

  pub All-update_where {κ} :
      (P : A → Type κ) (p : A → Bool) (f : A → A)
      → ((x : A) → p x ≡ true → P x → P (f x))
      → (xs : List A) → All P xs
      → All P (update_where p f xs)
  All-update_where P p f keep [] h = tt
  All-update_where P p f keep (x ∷ xs) h = elim (Bool-cases (p x)) [
    | inl e ↦ rw e (keep x e h.0, All-update_where P p f keep xs h.1)
    | inr e ↦ rw e (h.0, All-update_where P p f keep xs h.1)
  ]

  pub All-retain {κ} :
      (P : A → Type κ) (p : A → Bool) (xs : List A) → All P xs → All P (retain p xs)
  All-retain P p [] h = tt
  All-retain P p (x ∷ xs) h = elim (Bool-cases (p x)) [
    | inl e ↦ rw e (h.0, All-retain P p xs h.1)
    | inr e ↦ rw e (All-retain P p xs h.1)
  ]

  -- What is kept passed the test.
  pub retain-All : (p : A → Bool) (xs : List A) → All (λ x. p x ≡ true) (retain p xs)
  retain-All p [] = tt
  retain-All p (x ∷ xs) = elim (Bool-cases (p x)) [
    | inl e ↦ rw e (e, retain-All p xs)
    | inr e ↦ rw e (retain-All p xs)
  ]

  pub find-All {κ} :
      (P : A → Type κ) (p : A → Bool) (xs : List A) (y : A) → All P xs → find p xs ≡ some y → P y
  find-All P p [] y h e = cc
  find-All P p (x ∷ xs) y h e = elim (Bool-cases (p x)) [
    | inl t ↦ subst P (cc (rw t at e)) h.0
    | inr f ↦ find-All P p xs y h.1 (rw f at e)
  ]

  pub find-holds : (p : A → Bool) (xs : List A) (y : A) → find p xs ≡ some y → p y ≡ true
  find-holds p [] y e = cc
  find-holds p (x ∷ xs) y e = elim (Bool-cases (p x)) [
    | inl t ↦ ground (arith, t)
    | inr f ↦ find-holds p xs y (rw f at e)
  ]

  pub find-append :
      (p : A → Bool) (xs ys : List A)
      → find p (xs ++ ys) ≡ (if is_some (find p xs) then find p xs else find p ys)
  find-append p [] ys = refl
  find-append p (x ∷ xs) ys = elim (Bool-cases (p x)) [
    | inl t ↦ rw t
    | inr f ↦ rw f (find-append p xs ys)
  ]

  pub any-append : (p : A → Bool) (xs ys : List A) → any p (xs ++ ys) ≡ (any p xs || any p ys)
  any-append p [] ys = refl
  any-append p (x ∷ xs) ys = ground (arith, any-append p xs ys)

  pub any-find : (p : A → Bool) (xs : List A) → any p xs ≡ is_some (find p xs)
  any-find p [] = refl
  any-find p (x ∷ xs) = ground (arith, any-find p xs)

  pub map-update_where {κ} :
      {K : Type κ} (key : A → K) (p : A → Bool) (f : A → A)
      → ((x : A) → key (f x) ≡ key x)
      → (xs : List A) → map key (update_where p f xs) ≡ map key xs
  map-update_where key p f same [] = refl
  map-update_where key p f same (x ∷ xs) = elim (Bool-cases (p x)) [
    | inl t ↦ rw (t, same x, map-update_where key p f same xs)
    | inr t ↦ rw (t, map-update_where key p f same xs)
  ]

  -- No row fits, no row changes.
  pub update_where-none :
      (p : A → Bool) (f : A → A) (xs : List A) → any p xs ≡ false → update_where p f xs ≡ xs
  update_where-none p f [] h = refl
  update_where-none p f (x ∷ xs) h = ground (arith, update_where-none p f xs)

  pub All-zip {κ κ' κ''} :
      (P : A → Type κ) (Q : A → Type κ') (R : A → Type κ'')
      → ((x : A) → P x → Q x → R x)
      → (xs : List A) → All P xs
      → All Q xs
      → All R xs
  All-zip P Q R f [] p q = tt
  All-zip P Q R f (x ∷ xs) p q = (f x p.0 q.0, All-zip P Q R f xs p.1 q.1)

  -- An `UPDATE` seen at the row that a query finds.
  abbrev pub update_found : (A → Bool) → (A → A) → Option A → Option A
  update_found q f none = none
  update_found q f (some x) = some (if q x then f x else x)

  pub find-update_where :
      (p q : A → Bool) (f : A → A)
      → ((x : A) → p (f x) ≡ p x)
      → (xs : List A) → find p (update_where q f xs) ≡ update_found q f (find p xs)
  find-update_where p q f same [] = refl
  find-update_where p q f same (x ∷ xs) = ground (arith, same x, find-update_where p q f same xs)

  pub retain-update_where :
      (p q : A → Bool) (f : A → A)
      → ((x : A) → p (f x) ≡ p x)
      → (xs : List A) → retain p (update_where q f xs) ≡ update_where q f (retain p xs)
  retain-update_where p q f same [] = refl
  retain-update_where p q f same (x ∷ xs) =
      ground (arith, same x, retain-update_where p q f same xs)

  pub map-id : (f : A → A) → ((x : A) → f x ≡ x) → (xs : List A) → map f xs ≡ xs
  map-id f same [] = refl
  map-id f same (x ∷ xs) = rw (same x, map-id f same xs)

  pub update_where-ext :
      (p q : A → Bool) (f : A → A) (xs : List A)
      → All (λ x. p x ≡ q x) xs
      → update_where p f xs ≡ update_where q f xs
  update_where-ext p q f [] h = refl
  update_where-ext p q f (x ∷ xs) h = rw (h.0, update_where-ext p q f xs h.1)

  -- A filter in front of a search that the row passes changes nothing there.
  pub find-retain :
      (p q : A → Bool) (xs : List A) (x : A)
      → find p xs ≡ some x
      → q x ≡ true
      → find p (retain q xs) ≡ some x
  find-retain p q [] x e h = cc
  find-retain p q (y ∷ xs) x e h = elim (Bool-cases (p y)) [
    | inl t ↦
        let same : y ≡ x = ground arith in
        let passes : q y ≡ true = subst (λ z. q z ≡ true) (sym same) h in ground (arith, passes, t)
    | inr f ↦ let rest = find-retain p q xs x (rw f at e) h in ground (arith, f, rest)
  ]

  pub update_where-false :
      (p : A → Bool) (f : A → A) (xs : List A) → ((x : A) → p x ≡ false) → update_where p f xs ≡ xs
  update_where-false p f [] h = refl
  update_where-false p f (x ∷ xs) h = rw (h x, update_where-false p f xs h)

  -- Two updates at different rows are one.
  pub update_where-update_where :
      (p q : A → Bool) (f : A → A)
      → ((x : A) → q (f x) ≡ q x)
      → ((x : A) → p x ≡ true → q x ≡ false)
      → (xs : List A) → update_where q f (update_where p f xs) ≡ update_where (λ x. p x || q x) f xs
  update_where-update_where p q f same apart [] = refl
  update_where-update_where p q f same apart (x ∷ xs) =
      ground (arith, same x, apart x, update_where-update_where p q f same apart xs)

  -- A search behind a filter is a search for both tests.
  pub any-retain_both :
      (p q : A → Bool) (xs : List A) → any p (retain q xs) ≡ any (λ x. p x && q x) xs
  any-retain_both p q [] = refl
  any-retain_both p q (x ∷ xs) = ground (arith, any-retain_both p q xs)

  pub retain-append :
      (p : A → Bool) (xs ys : List A) → retain p (xs ++ ys) ≡ retain p xs ++ retain p ys
  retain-append p [] ys = refl
  retain-append p (x ∷ xs) ys = ground (arith, retain-append p xs ys)

pub any-map {ℓ κ} :
    {A : Type ℓ} {B : Type κ} (p : A → Bool) (f : B → A) (xs : List B)
    → any p (map f xs) ≡ any (λ x. p (f x)) xs
any-map p f [] = refl
any-map p f (x ∷ xs) = ground (arith, any-map p f xs)
