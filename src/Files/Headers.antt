-- ===== src/Files/Headers.antt =====
-- src/collaboration/transfer/http_server.rs: how the Range and Origin headers are read.
use Prim.Native.Char.{char, code}
use Prim.Native.String.{◌++◌ as str_append}
use text.Mathlib.Text.{starts_with}
use text.Mathlib.TextLemmas.{append_assoc as str_append_assoc, nil-append, cons-append}
use text.Mathlib.TextPositions.{starts_with-append}
use x_videos_dowloads.Prelude.{
  ℕ, ◌==◌, ◌^◌, ◌<◌, ◌≡◌, refl, sym, ap, ◌∙◌, String, true, false, List, ◌∷◌, none, some, ltb,
  if◌then◌else◌, arith, print_u64, parse_u64-print_u64,
}
use x_videos_dowloads.Prelude.Colon.{has}
use x_videos_dowloads.Prelude.Decimal.{has-print_u64, is_empty-print_u64}
use x_videos_dowloads.Prelude.Text.{split_at-append, split_at-absent}
use x_videos_dowloads.Files.Range.{lower, lower_char, parse_range}

-- The header that a chunk of a download asks with: `bytes={start}-{end}`.
abbrev pub range_header : (start end : ℕ) → String
range_header start end = str_append "range: bytes" (
    String.◌∷◌ (char 61 tt)
      (str_append (print_u64 start) (String.◌∷◌ (char 45 tt) (print_u64 end))))

pub lower-append : (a b : String) → lower (str_append a b) ≡ str_append (lower a) (lower b)
unfolding lower
lower-append String.[] b = rw (nil-append b, nil-append (lower b))
lower-append (String.◌∷◌ ch a) b =
    rw (cons-append ch a b, cons-append (lower_char ch) (lower a) (lower b), lower-append a b)

shift :
    (x : String)
    → str_append "range: bytes" (String.◌∷◌ (char 61 tt) x) ≡ str_append "range: bytes=" x
shift x =
    ap (str_append "range: bytes")
      (ap (String.◌∷◌ (char 61 tt)) (sym (nil-append x)) ∙ sym (cons-append (char 61 tt) "" x))
    ∙ sym (str_append_assoc "range: bytes" "=" x)

has-append :
    (c : ℕ) (a b : String)
    → has c a ≡ false
    → has c b ≡ false
    → has c (str_append a (String.◌∷◌ (char 45 tt) b)) ≡ (45 == c)
unfolding has
has-append c String.[] b h g = rw (nil-append (String.◌∷◌ (char 45 tt) b)) (ground arith)
has-append c (String.◌∷◌ ch a) b h g =
    let away : (code ch == c) ≡ false = ground arith in
    rw (cons-append ch a (String.◌∷◌ (char 45 tt) b), away) (has-append c a b (ground arith) g)

-- A range header is known by its first letters.
range_header-starts :
    (rest : String)
    → starts_with (lower (str_append "range: bytes" (String.◌∷◌ (char 61 tt) rest))) "range: bytes="
      ≡ true
unfolding lower
range_header-starts rest =
    rw (shift rest, lower-append "range: bytes=" rest)
      (starts_with-append "range: bytes=" (lower rest))

-- The header of a download whose bounds fit a `u64` is read back as its two bounds, and refused
-- where they are swapped.
pub parse_range-range_header :
    (start end : ℕ) (lines : List String)
    → start < 2 ^ 64
    → end < 2 ^ 64
    → parse_range (range_header start end ∷ lines)
      ≡ (if ltb end start then none else some (start, some end))
unfolding parse_range has
parse_range-range_header start end lines a b =
    let bounds = str_append (print_u64 start) (String.◌∷◌ (char 45 tt) (print_u64 end)) in
    let known = range_header-starts bounds in
    let cut = split_at-append (char 61 tt) "range: bytes" bounds refl in
    let no_sign : has 61 bounds ≡ false =
      has-append 61 (print_u64 start) (print_u64 end) (has-print_u64 61 start refl)
        (has-print_u64 61 end refl) in
    let parts =
      split_at-append (char 45 tt) (print_u64 start) (print_u64 end)
        (has-print_u64 45 start refl) in
    let last = split_at-absent 45 (print_u64 end) (has-print_u64 45 end refl) in
    rw (
      known,
      cut,
      split_at-absent 61 bounds no_sign,
      parts,
      last,
      parse_u64-print_u64 start a,
      is_empty-print_u64 end,
      parse_u64-print_u64 end b,
    )
