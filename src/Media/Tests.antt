-- ===== src/Media/Tests.antt =====
-- src/types.rs on concrete names and sizes.
use Prim.Native.Char.{Char, code}
use Prim.Native.String.{◌++◌ as str_append}
use x_videos_dowloads.Prelude.{
  ℕ, suc, ◌^◌, ◌≤◌, ◌<◌, ◌≡◌, ◌⊎◌, refl, String, Bool, ◌&&◌, ◌||◌, leb, arith,
}
use x_videos_dowloads.Media.Names.{sanitize_filename, clean_name, has_dots}
use x_videos_dowloads.Media.Safe.{
  IsAlphanumeric, IsSafe, sanitize_filename-IsSafe, sanitize_filename-again,
}
use x_videos_dowloads.Media.Units.{format_bytes, format_bytes-unit, unit_name, amount}

-- Digits and Latin letters.
abbrev pub latin : Char → Bool
latin ch =
    (leb 48 (code ch) && leb (code ch) 57)
    || ((leb 65 (code ch) && leb (code ch) 90) || (leb 97 (code ch) && leb (code ch) 122))

latin-IsAlphanumeric : IsAlphanumeric latin
latin-IsAlphanumeric = record {
  letters = λ ch low high. ground arith;
  slash = λ ch e. ground arith;
  backslash = λ ch e. ground arith;
  tilde = λ ch e. ground arith;
}

replaced : sanitize_filename latin "a/b c.mp4" ≡ "a_b_c.mp4"
unfolding sanitize_filename clean_name has_dots
replaced = refl

refused : sanitize_filename latin "a/../b" ≡ "video"
unfolding sanitize_filename clean_name has_dots
refused = refl

sanitize_filename-IsSafe_example : IsSafe (sanitize_filename latin "a/b c.mp4")
sanitize_filename-IsSafe_example = sanitize_filename-IsSafe latin latin-IsAlphanumeric "a/b c.mp4"

sanitize_filename-again_example :
    sanitize_filename latin (sanitize_filename latin "a/b") ≡ sanitize_filename latin "a/b"
sanitize_filename-again_example = sanitize_filename-again latin latin-IsAlphanumeric "a/b"

abbrev kib : ℕ → ℕ → String
kib bytes unit_index = "1.5"

format_bytes-unit_example :
    (i : ℕ) × (format_bytes kib 1536 ≡ str_append (amount kib 1536 i) (unit_name i))
    × (i ≤ 4)
    × (1024 ^ i ≤ 1536 ⊎ (i ≡ 0))
    × (1536 < 1024 ^ suc i ⊎ (i ≡ 4))
format_bytes-unit_example = format_bytes-unit kib 1536
