-- ===== src/Prelude/Keys.antt =====
-- Tables whose rows have distinct keys (PRIMARY KEY, UNIQUE, the keys of a map).
use Prim.Native.Nat.{ℕ}
use mathlib.Core.Option.{some}
use mathlib.Core.Logic.{inl, inr}
use x_videos_dowloads.Prelude.Tests.{◌==◌, ==-self, Bool-cases}
use mathlib.Core.Path.{◌≡◌, refl}
use mathlib.Core.Bool.{Bool, false, ◌&&◌}
use mathlib.Core.List.{List, [], ◌∷◌, ◌++◌, map, map-append}
use native.Mathlib.Omega.{arith}
use x_videos_dowloads.Prelude.Iter.{any, any-append, any-map, All, All-zip, find, retain}

module _ {κ} {K : Type κ} (eq : K → K → Bool) where
  -- No key equals a later one.
  abbrev pub Distinct : List K → Type 0
  Distinct [] = Unit
  Distinct (k ∷ ks) = (any (eq k) ks ≡ false) × Distinct ks

  -- A new key may go to the end.
  pub Distinct-append :
      (ks : List K) (k : K) → any (λ j. eq j k) ks ≡ false → Distinct ks → Distinct (ks ++ k ∷ [])
  Distinct-append [] k h d = (refl, tt)
  Distinct-append (j ∷ ks) k h d =
      (ground (arith, any-append (eq j) ks (k ∷ [])), Distinct-append ks k (ground arith) d.1)

  -- The same for the keys of rows.
  pub Distinct-map-append {ℓ} :
      {A : Type ℓ} (key : A → K) (xs : List A) (x : A)
      → any (λ (y : A). eq (key y) (key x)) xs ≡ false
      → Distinct (map key xs)
      → Distinct (map key (xs ++ x ∷ []))
  Distinct-map-append key xs x h d =
      rw (map-append key xs (x ∷ []))
        (Distinct-append (map key xs) (key x) (rw (any-map (λ k. eq k (key x)) key xs) h) d)

  -- Rows that are dropped leave the other keys distinct.
  any-retain {ℓ} :
      {A : Type ℓ} (key : A → K) (p : A → Bool) (k : K) (xs : List A)
      → any (eq k) (map key xs) ≡ false
      → any (eq k) (map key (retain p xs)) ≡ false
  any-retain key p k [] h = refl
  any-retain key p k (x ∷ xs) h = ground (arith, any-retain key p k xs)

  pub Distinct-retain {ℓ} :
      {A : Type ℓ} (key : A → K) (p : A → Bool) (xs : List A)
      → Distinct (map key xs)
      → Distinct (map key (retain p xs))
  Distinct-retain key p [] d = tt
  Distinct-retain key p (x ∷ xs) d = elim (Bool-cases (p x)) [
    | inl t ↦ rw t (any-retain key p (key x) xs d.0, Distinct-retain key p xs d.1)
    | inr f ↦ rw f (Distinct-retain key p xs d.1)
  ]

module _ {ℓ} {A : Type ℓ} (key : A → ℕ) where
  apart :
      (k : ℕ) (xs : List A) → any (◌==◌ k) (map key xs) ≡ false → All (λ x. (k == key x) ≡ false) xs
  apart k [] h = tt
  apart k (x ∷ xs) h = (ground arith, apart k xs (ground arith))

  -- With distinct keys a search by the key of a row finds that row.
  pub Distinct-find :
      (xs : List A)
      → Distinct ◌==◌ (map key xs)
      → All (λ x. find (λ y. key y == key x) xs ≡ some x) xs
  Distinct-find [] d = tt
  Distinct-find (x ∷ xs) d = (
    rw (==-self (key x)),
    All-zip (λ y. (key x == key y) ≡ false) (λ y. find (λ z. key z == key y) xs ≡ some y)
        (λ y. find (λ z. key z == key y) (x ∷ xs) ≡ some y) (λ y other found. rw (other, found)) xs
        (apart (key x) xs d.0) (Distinct-find xs d.1),
  )

  -- With distinct keys a test at the row of a key is the test of that row.
  pub any_absent :
      (g : A → Bool) (k : ℕ) (xs : List A)
      → any (◌==◌ k) (map key xs) ≡ false
      → any (λ x. (k == key x) && g x) xs ≡ false
  any_absent g k [] h = refl
  any_absent g k (x ∷ xs) h = ground (arith, any_absent g k xs)

  pub Distinct-any :
      (g : A → Bool) (xs : List A)
      → Distinct ◌==◌ (map key xs)
      → All (λ x. any (λ y. (key x == key y) && g y) xs ≡ g x) xs
  Distinct-any g [] d = tt
  Distinct-any g (x ∷ xs) d = (
    ground (arith, any_absent g (key x) xs d.0),
    All-zip (λ y. (key x == key y) ≡ false) (λ y. any (λ z. (key y == key z) && g z) xs ≡ g y)
        (λ y. any (λ z. (key y == key z) && g z) (x ∷ xs) ≡ g y) (λ y other found. ground arith) xs
        (apart (key x) xs d.0) (Distinct-any g xs d.1),
  )
