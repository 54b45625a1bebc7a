-- ===== src/Prelude/Text.antt =====
-- Texts cut at a character, and `Path::file_name` of a Unix path.
use Prim.Native.Nat.{ℕ}
use Prim.Native.Char.{Char, code}
use Prim.Native.String.{String, ◌++◌ as str_append}
use mathlib.Core.Path.{◌≡◌, refl}
use native.Mathlib.Omega.{arith}
use text.Mathlib.TextLemmas.{nil-append, cons-append}
use x_videos_dowloads.Prelude.Colon.{has}
use mathlib.Core.Bool.{false, ◌||◌, not}
use mathlib.Core.List.{List, [], ◌∷◌}
use mathlib.Core.Option.{Option, none, some}
use text.Mathlib.Text.{◌==◌ as str_eq}
use x_videos_dowloads.Prelude.Tests.{◌==◌, ==-self, if◌then◌else◌}
use x_videos_dowloads.Prelude.Iter.{retain}

-- One more character at the front of the first piece.
unfoldable pub prepend : Char → List String → List String
prepend c [] = String.◌∷◌ c String.[] ∷ []
prepend c (w ∷ ws) = String.◌∷◌ c w ∷ ws

-- `s.split(c)`
unfoldable pub split_at : ℕ → String → List String
unfolding prepend
split_at c String.[] = String.[] ∷ []
split_at c (String.◌∷◌ ch s) =
    let rest = split_at c s in if code ch == c then String.[] ∷ rest else prepend ch rest

unfoldable pub last {ℓ} : {A : Type ℓ} → List A → Option A
last [] = none
last (x ∷ []) = some x
last (x ∷ y ∷ ys) = last (y ∷ ys)

named : Option String → Option String
named none = none
named (some w) = if str_eq w ".." then none else some w

-- The last component, unless it is `..`; empty components and `.` do not count.
unfoldable pub file_name : String → Option String
unfolding split_at last named
file_name path = named (last (retain (λ w. not (str_eq w "" || str_eq w ".")) (split_at b'/' path)))

pub split_at-absent : (c : ℕ) (s : String) → has c s ≡ false → split_at c s ≡ s ∷ []
unfolding split_at prepend has
split_at-absent c String.[] h = refl
split_at-absent c (String.◌∷◌ ch s) h =
    let away : (code ch == c) ≡ false = ground arith in
    rw (away, split_at-absent c s (ground arith))

-- A text is split at the first occurrence of a character.
pub split_at-append :
    (x : Char) (a b : String)
    → has (code x) a ≡ false
    → split_at (code x) (str_append a (String.◌∷◌ x b)) ≡ a ∷ split_at (code x) b
unfolding split_at prepend has
split_at-append x String.[] b h = rw (nil-append (String.◌∷◌ x b), ==-self (code x))
split_at-append x (String.◌∷◌ ch a) b h =
    let away : (code ch == code x) ≡ false = ground arith in
    rw (cons-append ch a (String.◌∷◌ x b), away, split_at-append x a b (ground arith))
