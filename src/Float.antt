-- ===== src/Float.antt =====
-- Rust's `f64` as its IEEE 754 bit pattern: what the program compares and stores.
use x_videos_dowloads.Prelude.{ℕ, ◌+◌, ◌%◌, ◌^◌, Bool, false, not, ◌&&◌, ltb, leb, if◌then◌else◌}

-- The sign is bit 63; the 63 bits below it order the magnitudes.
abbrev pub sign_bit : ℕ
sign_bit = 2 ^ 63

-- The pattern of positive infinity; a greater magnitude is a NaN.
abbrev pub infinity : ℕ
infinity = 0x7FF0000000000000

abbrev pub f64_zero : ℕ
f64_zero = 0

abbrev pub f64_one : ℕ
f64_one = 0x3FF0000000000000

is_negative : ℕ → Bool
is_negative x = leb sign_bit x

magnitude : ℕ → ℕ
magnitude x = x % sign_bit

is_nan : ℕ → Bool
unfolding magnitude
is_nan x = ltb infinity (magnitude x)

-- `f64::is_finite`
unfoldable pub is_finite : ℕ → Bool
unfolding magnitude
is_finite x = ltb (magnitude x) infinity

-- `a < b` on `f64`: false beside a NaN, and -0.0 is no less than 0.0.
unfoldable pub f64_lt : ℕ → ℕ → Bool
unfolding is_negative magnitude is_nan
f64_lt a b =
    not (is_nan a)
    && not (is_nan b)
    && (if is_negative a
        then (if is_negative b
            then ltb (magnitude b) (magnitude a)
            else ltb 0 (magnitude a + magnitude b))
        else (if is_negative b then false else ltb (magnitude a) (magnitude b)))
