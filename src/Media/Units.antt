-- ===== src/Media/Units.antt =====
-- src/types.rs: `format_bytes`. What `{:.1}` prints of `bytes / 1024^unit` is a parameter; the test
-- `size >= 1024.0` is exact, since the powers of 1024 up to the fourth are numbers of an `f64`, and
-- rounding keeps the order.
use Prim.Native.String.{◌++◌ as str_append}
use x_videos_dowloads.Prelude.{
  ℕ, zero, suc, ◌+◌, ◌^◌, ◌≤◌, ◌<◌, ◌≡◌, ◌⊎◌, inl, inr, refl, String, leb, ◌==◌, if◌then◌else◌,
  print_u64, arith, Bool-cases,
}

-- The loop, with the steps that `UNITS` leaves.
unfoldable pub unit_from : (left bytes unit_index : ℕ) → ℕ
unit_from zero bytes unit_index = unit_index
unit_from (suc left) bytes unit_index =
    let more = unit_from left bytes (suc unit_index) in
    if leb (1024 ^ suc unit_index) bytes then more else unit_index

abbrev pub unit_name : ℕ → String
unit_name zero = " B"
unit_name (suc zero) = " KB"
unit_name (suc (suc zero)) = " MB"
unit_name (suc (suc (suc zero))) = " GB"
unit_name _ = " TB"

unfoldable pub format_bytes : (show_tenths : ℕ → ℕ → String) (bytes : ℕ) → String
unfolding unit_from
format_bytes show_tenths bytes =
    let unit_index = unit_from 4 bytes 0 in
    if unit_index == 0
    then str_append (print_u64 bytes) (unit_name unit_index)
    else str_append (show_tenths bytes unit_index) (unit_name unit_index)

-- What the loop stands at, from a unit that has been reached.
unit_from_bounds :
    (left bytes i : ℕ)
    → 1024 ^ i ≤ bytes ⊎ (i ≡ 0)
    → (i ≤ unit_from left bytes i)
      × (unit_from left bytes i ≤ i + left)
      × (1024 ^ unit_from left bytes i ≤ bytes ⊎ (unit_from left bytes i ≡ 0))
      × (bytes < 1024 ^ suc (unit_from left bytes i) ⊎ (unit_from left bytes i ≡ i + left))
unfolding unit_from
unit_from_bounds zero bytes i h = (omega arith, omega arith, h, inr (omega arith))
unit_from_bounds (suc left) bytes i h = elim (Bool-cases (leb (1024 ^ suc i) bytes)) [
  | inl t ↦
      let (low, high, reached, last) = unit_from_bounds left bytes (suc i) (inl (ground arith)) in
      rw t
        (omega arith, omega arith, reached, elim last [ inl l ↦ inl l | inr e ↦ inr (omega arith) ])
  | inr f ↦ rw f (omega arith, omega arith, h, inl (ground arith))
]

-- The number as it stands before its unit.
abbrev pub amount : (show_tenths : ℕ → ℕ → String) (bytes unit_index : ℕ) → String
amount show_tenths bytes unit_index =
    if unit_index == 0 then print_u64 bytes else show_tenths bytes unit_index

-- The unit of a printed size is the one in which the number is at least 1 and below 1024, where
-- there is one: bytes stand for the numbers below 1, and TB for those from 1024 on.
pub format_bytes-unit :
    (show_tenths : ℕ → ℕ → String) (bytes : ℕ)
    → (i : ℕ) × (format_bytes show_tenths bytes
        ≡ str_append (amount show_tenths bytes i) (unit_name i))
      × (i ≤ 4)
      × (1024 ^ i ≤ bytes ⊎ (i ≡ 0))
      × (bytes < 1024 ^ suc i ⊎ (i ≡ 4))
unfolding format_bytes
format_bytes-unit show_tenths bytes =
    let (low, high, reached, last) = unit_from_bounds 4 bytes 0 (inr refl) in
    let i = unit_from 4 bytes 0 in
    (i, elim (Bool-cases (i == 0)) [ inl t ↦ rw t | inr f ↦ rw f ], high, reached, last)
