-- ===== src/Media/Names.antt =====
-- src/types.rs: `sanitize_filename`. Whether a character is alphanumeric is a parameter, for the
-- tables of Unicode.
use Prim.Native.Char.{Char, char, code}
use x_videos_dowloads.Prelude.{
  ℕ, zero, suc, String, Bool, false, ◌&&◌, ◌||◌, ◌==◌, if◌then◌else◌, is_empty,
}

-- `starts_with` of a character.
abbrev pub starts : ℕ → String → Bool
starts c String.[] = false
starts c (String.◌∷◌ ch s) = code ch == c

-- `name.contains("..")`
unfoldable pub has_dots : String → Bool
has_dots String.[] = false
has_dots (String.◌∷◌ ch s) = (code ch == b'.' && starts b'.' s) || has_dots s

abbrev pub has_path_traversal : String → Bool
has_path_traversal name =
    has_dots name || (starts b'/' name || (starts 92 name || starts b'~' name))

module _ (is_alphanumeric : Char → Bool) where
  abbrev pub is_kept : Char → Bool
  is_kept ch = is_alphanumeric ch || (code ch == b'-' || (code ch == b'_' || code ch == b'.'))

  abbrev pub clean : Char → Char
  clean ch = if is_kept ch then ch else char 95 tt

  -- The first `n` characters, every one replaced that is not kept.
  unfoldable pub clean_name : ℕ → String → String
  clean_name zero s = String.[]
  clean_name (suc n) String.[] = String.[]
  clean_name (suc n) (String.◌∷◌ ch s) = String.◌∷◌ (clean ch) (clean_name n s)

  abbrev pub or_video : String → String
  or_video s = if is_empty s then "video" else s

  -- `sanitize_filename`
  unfoldable pub sanitize_filename : String → String
  unfolding clean_name
  sanitize_filename name =
      if has_path_traversal name then "video" else or_video (clean_name 200 name)
