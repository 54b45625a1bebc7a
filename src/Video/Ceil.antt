-- ===== src/Video/Ceil.antt =====
-- src/downloader.rs: the size of a segment, a quotient rounded up.
use native.Mathlib.Nat.{mul-le-mul_right, mul-lt-mul_of_pos_left, mul_comm}
use x_videos_dowloads.Prelude.{
  ℕ, suc, ◌+◌, ◌-◌, ◌*◌, ◌^◌, ◌≤◌, ◌<◌, ◌≡◌, ◌∙◌, ap, leb, arith, Bool-cases, inl, inr,
}

-- What is relied on of `(a as f64 / b as f64).ceil() as u64`: below 2 ^ 53 it is the least number
-- that is at least the quotient.
abbrev pub IsCeil : (ℕ → ℕ → ℕ) → Type 0
IsCeil ceil_div =
    (a b : ℕ) → a < 2 ^ 53 → 0 < b → (a ≤ ceil_div a b * b) × (ceil_div a b * b < a + b)

one-le-square : (s : ℕ) → 0 < s → 1 ≤ s * s
one-le-square s h = omega (arith, mul-le-mul_right {m = 1} {n = s} s h)

-- A factor that is cancelled.
le-factor : (s c : ℕ) → 0 < s → s * s ≤ c * s → s ≤ c
le-factor s c positive h = elim (Bool-cases (leb s c)) [
  | inl t ↦ ground arith
  | inr f ↦
      let less : c < s = ground arith in
      let product = mul-lt-mul_of_pos_left {k = s} less positive in
      absurd (omega (arith, product, mul_comm s c))
]

-- With no more segments than the square root of the total, the last one begins before the end.
pub ceil-tiles :
    (ceil_div : ℕ → ℕ → ℕ) (total s : ℕ)
    → IsCeil ceil_div
    → total < 2 ^ 53
    → 0 < s
    → s * s ≤ total
    → let c = ceil_div total s in (0 < c) × ((0 + suc (s - 1)) * c < total + c)
ceil-tiles ceil_div total s exact small some_segment square =
    let c = ceil_div total s in
    let (covers, tight) = exact total s small some_segment in
    let wide : s ≤ c = le-factor s c some_segment (omega (arith, square, covers)) in
    let n : (0 + suc (s - 1)) * c ≡ c * s = ap (λ k. k * c) (omega arith) ∙ mul_comm s c in
    (omega arith, omega (arith, n, tight, wide))
