-- ===== src/Files/Range.antt =====
-- src/collaboration/transfer/http_server.rs: `parse_range`. Lower case is taken letter by letter in
-- ASCII: no other character has a lower case that starts with one of the letters searched for.
use Prim.Native.Char.{Char, code}
use Prim.Native.String.{char_at}
use text.Mathlib.Text.{starts_with}
use x_videos_dowloads.Prelude.{
  ℕ, zero, suc, ◌-◌, String, ◌&&◌, List, [], ◌∷◌, Option, none, some, ltb, leb, if◌then◌else◌,
  parse_u64, is_empty,
}
use x_videos_dowloads.Prelude.Text.{split_at}

abbrev pub lower_char : Char → Char
lower_char ch =
    if leb 65 (code ch) && leb (code ch) 90
    then char_at "abcdefghijklmnopqrstuvwxyz" (code ch - 65)
    else ch

-- `line.to_lowercase()`
unfoldable pub lower : String → String
lower String.[] = String.[]
lower (String.◌∷◌ ch s) = String.◌∷◌ (lower_char ch) (lower s)

-- `iter.nth(n)`
unfoldable pub nth {ℓ} : {A : Type ℓ} → ℕ → List A → Option A
nth n [] = none
nth zero (x ∷ xs) = some x
nth (suc n) (x ∷ xs) = nth n xs

-- The range, unless it runs backwards.
abbrev pub forward : ℕ → ℕ → Option (ℕ × Option ℕ)
forward start end = if ltb end start then none else some (start, some end)

unfoldable pub with_end : ℕ → Option ℕ → Option (ℕ × Option ℕ)
with_end start none = none
with_end start (some end) = forward start end

unfoldable pub with_start : Option ℕ → Option String → Option (ℕ × Option ℕ)
unfolding with_end
with_start none rest = none
with_start (some start) none = some (start, none)
with_start (some start) (some text) =
    let bounded = with_end start (parse_u64 text) in
    if is_empty text then some (start, none) else bounded

-- The bounds of `start-end`; a split has at least one part.
unfoldable pub read_bounds : List String → Option (ℕ × Option ℕ)
unfolding with_start nth
read_bounds [] = none
read_bounds (first ∷ parts) = with_start (parse_u64 first) (nth 0 parts)

unfoldable pub read_spec : Option String → Option (ℕ × Option ℕ)
unfolding read_bounds
read_spec none = none
read_spec (some range_spec) = read_bounds (split_at 45 range_spec)

-- `FileServer::parse_range`: the first line that is a range decides.
unfoldable pub parse_range : List String → Option (ℕ × Option ℕ)
unfolding lower read_spec
parse_range [] = none
parse_range (line ∷ lines) =
    let later = parse_range lines in
    if starts_with (lower line) "range: bytes=" then read_spec (nth 1 (split_at 61 line)) else later
