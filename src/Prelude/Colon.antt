-- ===== src/Prelude/Colon.antt =====
-- Texts cut at the first or the last occurrence of a character: `split_once` and `rsplit_once`.
use Prim.Native.Nat.{ℕ}
use Prim.Native.Char.{Char, code}
use Prim.Native.String.{String, ◌++◌}
use mathlib.Core.Path.{◌≡◌, refl}
use mathlib.Core.Bool.{Bool, true, false, ◌||◌}
use mathlib.Core.Option.{Option, none, some}
use native.Mathlib.Omega.{arith}
use text.Mathlib.TextLemmas.{nil-append, cons-append}
use x_videos_dowloads.Prelude.Tests.{◌==◌, ==-self, if◌then◌else◌}

-- The character occurs in the text.
unfoldable pub has : ℕ → String → Bool
has c String.[] = false
has c (String.◌∷◌ ch s) = code ch == c || has c s

abbrev pub lead : Char → Option (String × String) → Option (String × String)
lead ch none = none
lead ch (some (a, b)) = some (String.◌∷◌ ch a, b)

-- `s.split_once(c)`
unfoldable pub split_once : ℕ → String → Option (String × String)
split_once c String.[] = none
split_once c (String.◌∷◌ ch s) =
    let rest = split_once c s in if code ch == c then some (String.[], s) else lead ch rest

-- The last cut, given the one further on, if any.
abbrev pub or_here : Bool → Char → String → Option (String × String) → Option (String × String)
or_here here ch s (some (a, b)) = some (String.◌∷◌ ch a, b)
or_here true ch s none = some (String.[], s)
or_here false ch s none = none

-- `s.rsplit_once(c)`
unfoldable pub rsplit_once : ℕ → String → Option (String × String)
rsplit_once c String.[] = none
rsplit_once c (String.◌∷◌ ch s) = or_here (code ch == c) ch s (rsplit_once c s)

rsplit_once-absent : (c : ℕ) (s : String) → has c s ≡ false → rsplit_once c s ≡ none
unfolding has rsplit_once
rsplit_once-absent c String.[] h = refl
rsplit_once-absent c (String.◌∷◌ ch s) h =
    let away : (code ch == c) ≡ false = ground arith in
    let rest = rsplit_once-absent c s (ground arith) in rw (away, rest)

pub rsplit_once-append :
    (x : Char) (a b : String)
    → has (code x) b ≡ false
    → rsplit_once (code x) (a ++ String.◌∷◌ x b) ≡ some (a, b)
unfolding rsplit_once
rsplit_once-append x String.[] b h =
    rw (nil-append (String.◌∷◌ x b), rsplit_once-absent (code x) b h, ==-self (code x))
rsplit_once-append x (String.◌∷◌ ch a) b h =
    rw (cons-append ch a (String.◌∷◌ x b), rsplit_once-append x a b h)

pub split_once-append :
    (x : Char) (a b : String)
    → has (code x) a ≡ false
    → split_once (code x) (a ++ String.◌∷◌ x b) ≡ some (a, b)
unfolding has split_once
split_once-append x String.[] b h = rw (nil-append (String.◌∷◌ x b), ==-self (code x))
split_once-append x (String.◌∷◌ ch a) b h =
    let away : (code ch == code x) ≡ false = ground arith in
    let rest = split_once-append x a b (ground arith) in
    rw (cons-append ch a (String.◌∷◌ x b), away, rest)
