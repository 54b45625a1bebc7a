-- ===== src/Prelude/Decimal.antt =====
-- Decimal numbers as Rust's `Display` prints a `u64` and `str::parse::<u64>` reads one.
use Prim.Native.Nat.{ℕ, zero, suc, ◌+◌, ◌-◌, ◌*◌, ◌/◌, ◌%◌, ◌^◌, ◌<◌}
use Prim.Native.Char.{Char, code}
use Prim.Native.String.{String, char_at}
use mathlib.Core.Path.{◌≡◌, refl, ◌∙◌, subst}
use mathlib.Core.Logic.{◌≢◌, ◌⊎◌, inl, inr}
use mathlib.Core.Bool.{Bool, true, false, ◌&&◌}
use mathlib.Core.Option.{Option, none, some}
use native.Mathlib.Omega.{arith}
use x_videos_dowloads.Prelude.Tests.{Bool-cases, ◌==◌, ltb, leb, if◌then◌else◌}
use x_videos_dowloads.Prelude.Colon.{has}

abbrev pub digit : ℕ → Char
digit d = char_at "0123456789" d

code-digit : (d : ℕ) → d < 10 → code (digit d) ≡ 48 + d
code-digit zero h = refl
code-digit (suc zero) h = refl
code-digit (suc (suc zero)) h = refl
code-digit (suc (suc (suc zero))) h = refl
code-digit (suc (suc (suc (suc zero)))) h = refl
code-digit (suc (suc (suc (suc (suc zero))))) h = refl
code-digit (suc (suc (suc (suc (suc (suc zero)))))) h = refl
code-digit (suc (suc (suc (suc (suc (suc (suc zero))))))) h = refl
code-digit (suc (suc (suc (suc (suc (suc (suc (suc zero)))))))) h = refl
code-digit (suc (suc (suc (suc (suc (suc (suc (suc (suc zero))))))))) h = refl
code-digit (suc (suc (suc (suc (suc (suc (suc (suc (suc (suc d)))))))))) h = absurd (omega arith)

-- The digits of `n` in front of a text; one step of fuel to a digit.
unfoldable pub print_from : ℕ → ℕ → String → String
print_from zero n rest = rest
print_from (suc fuel) n rest =
    let more = print_from fuel (n / 10) (String.◌∷◌ (digit (n % 10)) rest) in
    if ltb n 10 then String.◌∷◌ (digit (n % 10)) rest else more

-- A `u64` has at most twenty digits.
unfoldable pub print_u64 : ℕ → String
unfolding print_from
print_u64 n = print_from 20 n String.[]

-- The digits that follow the number read so far, which must stay below 2 ^ 64.
unfoldable pub read_digits : ℕ → String → Option ℕ
read_digits n String.[] = some n
read_digits n (String.◌∷◌ ch s) =
    let d = code ch - 48 in
    let rest = read_digits (n * 10 + d) s in
    if (leb 48 (code ch) && leb (code ch) 57) && ltb (n * 10 + d) (2 ^ 64) then rest else none

-- One `+` may stand in front, and there is at least one digit.
abbrev pub unsigned : String → String
unsigned String.[] = String.[]
unsigned (String.◌∷◌ ch s) = if code ch == 43 then s else String.◌∷◌ ch s

abbrev pub is_empty : String → Bool
is_empty String.[] = true
is_empty (String.◌∷◌ ch s) = false

-- `s.parse::<u64>()`
unfoldable pub parse_u64 : String → Option ℕ
unfolding read_digits
parse_u64 s = if is_empty (unsigned s) then none else read_digits 0 (unsigned s)

-- Reading the last digit of a number.
read_digit :
    (n : ℕ) (rest : String)
    → n < 2 ^ 64
    → read_digits (n / 10) (String.◌∷◌ (digit (n % 10)) rest) ≡ read_digits n rest
unfolding read_digits
read_digit n rest h =
    let c = code-digit (n % 10) (omega arith) in
    let whole : n / 10 * 10 + (48 + n % 10 - 48) ≡ n = omega arith in rw (c, whole) (ground arith)

-- `fuel` digits hold the numbers below this.
abbrev pub room : ℕ → ℕ
room zero = 1
room (suc fuel) = 10 * room fuel

read_digits-print_from :
    (fuel n : ℕ) (rest : String)
    → n < room fuel
    → n < 2 ^ 64
    → n ≢ 0 ⊎ (0 < fuel)
    → read_digits 0 (print_from fuel n rest) ≡ read_digits n rest
unfolding print_from
read_digits-print_from zero n rest small bound some_digit = absurd (ground arith)
read_digits-print_from (suc fuel) n rest small bound some_digit = elim (Bool-cases (ltb n 10)) [
  | inl one ↦
      let none_before : n / 10 ≡ 0 = ground arith in
      rw one (
        subst (λ k. read_digits k (String.◌∷◌ (digit (n % 10)) rest) ≡ read_digits n rest)
          none_before (read_digit n rest bound))
  | inr more ↦
      let tenth : n / 10 < room fuel = ground arith in
      let positive : n / 10 ≢ 0 = ground arith in
      rw more (
        read_digits-print_from fuel (n / 10) (String.◌∷◌ (digit (n % 10)) rest) tenth (omega arith)
          (inl positive)
        ∙ read_digit n rest bound)
]

abbrev pub is_digit : ℕ → Bool
is_digit c = leb 48 c && leb c 57

has-print_from :
    (c fuel n : ℕ) (rest : String)
    → is_digit c ≡ false
    → has c (print_from fuel n rest) ≡ has c rest
unfolding has print_from
has-print_from c zero n rest h = refl
has-print_from c (suc fuel) n rest h =
    let at = code-digit (n % 10) (omega arith) in
    let plain : (code (digit (n % 10)) == c) ≡ false = ground arith in
    let step : has c (String.◌∷◌ (digit (n % 10)) rest) ≡ has c rest = rw plain in
    elim (Bool-cases (ltb n 10)) [
      | inl one ↦ rw one step
      | inr more ↦
          rw more (has-print_from c fuel (n / 10) (String.◌∷◌ (digit (n % 10)) rest) h ∙ step)
    ]

print_from-head :
    (fuel n : ℕ) (rest : String)
    → (d : ℕ) × (s : String) × (d < 10) × (print_from (suc fuel) n rest ≡ String.◌∷◌ (digit d) s)
unfolding print_from
print_from-head zero n rest = (n % 10, rest, omega arith, ground arith)
print_from-head (suc fuel) n rest = elim (Bool-cases (ltb n 10)) [
  | inl one ↦ (n % 10, rest, omega arith, rw one)
  | inr more ↦
      let (d, s, small, e) = print_from-head fuel (n / 10) (String.◌∷◌ (digit (n % 10)) rest) in
      (d, s, small, rw more e)
]

-- A printed number has digits only, and some.
pub has-print_u64 : (c n : ℕ) → is_digit c ≡ false → has c (print_u64 n) ≡ false
unfolding print_u64 has
has-print_u64 c n h = has-print_from c 20 n String.[] h

pub is_empty-print_u64 : (n : ℕ) → is_empty (print_u64 n) ≡ false
unfolding print_u64
is_empty-print_u64 n = let (d, s, small, e) = print_from-head 19 n String.[] in rw e

-- A printed number reads back.
pub parse_u64-print_u64 : (n : ℕ) → n < 2 ^ 64 → parse_u64 (print_u64 n) ≡ some n
unfolding parse_u64 print_u64
parse_u64-print_u64 n h =
    let (d, s, small, e) = print_from-head 19 n String.[] in
    let c = code-digit d small in
    let plain : (code (digit d) == 43) ≡ false = ground arith in
    let same : unsigned (print_from 20 n String.[]) ≡ print_from 20 n String.[] = rw (e, plain) in
    let full : is_empty (print_from 20 n String.[]) ≡ false = rw e in
    rw (same, full) (read_digits-print_from 20 n String.[] (omega arith) h (inr (omega arith)))
