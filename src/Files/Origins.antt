-- ===== src/Files/Origins.antt =====
-- src/collaboration/transfer/http_server.rs: what becomes of a request with an Origin header.
use Prim.Native.Char.{char}
use Prim.Native.String.{◌++◌ as str_append}
use text.Mathlib.Text.{starts_with}
use text.Mathlib.TextLemmas.{append_assoc as str_append_assoc, nil-append, cons-append}
use text.Mathlib.TextPositions.{starts_with-append}
use x_videos_dowloads.Prelude.{
  ℕ, ◌≡◌, refl, sym, ap, ◌∙◌, String, true, false, List, [], ◌∷◌, ◌++◌, Option, none, some, All,
  is_empty,
}
use x_videos_dowloads.Prelude.Colon.{has}
use x_videos_dowloads.Prelude.Text.{split_at-append}
use x_videos_dowloads.Files.Range.{lower, nth}
use x_videos_dowloads.Files.Limiter.{is_allowed}
use x_videos_dowloads.Files.Cors.{get_origin_from_request, trim, origin_allowed}
use x_videos_dowloads.Files.Serve.{forbidden}
use x_videos_dowloads.Files.Server.{FileServer, FileSystem, handle_request, answer_lines}
use x_videos_dowloads.Files.Headers.{lower-append}

-- `Origin: {scheme}:{rest}`, as in `Origin: http://localhost:8080`.
abbrev pub origin_header : (scheme rest : String) → String
origin_header scheme rest = str_append "Origin" (
    String.◌∷◌ (char 58 tt)
      (str_append (String.◌∷◌ (char 32 tt) scheme) (String.◌∷◌ (char 58 tt) rest)))

abbrev pub IsOther : String → Type 0
IsOther line = starts_with (lower line) "origin:" ≡ false

shift : (x : String) → str_append "Origin" (String.◌∷◌ (char 58 tt) x) ≡ str_append "Origin:" x
shift x =
    ap (str_append "Origin")
      (ap (String.◌∷◌ (char 58 tt)) (sym (nil-append x)) ∙ sym (cons-append (char 58 tt) "" x))
    ∙ sym (str_append_assoc "Origin" ":" x)

origin_header-starts :
    (x : String)
    → starts_with (lower (str_append "Origin" (String.◌∷◌ (char 58 tt) x))) "origin:" ≡ true
unfolding lower
origin_header-starts x =
    rw (shift x, lower-append "Origin:" x) (starts_with-append "origin:" (lower x))

-- Only the scheme is read.
get_origin_from_request-scheme :
    (before after : List String) (scheme rest : String)
    → All IsOther before
    → has 58 scheme ≡ false
    → get_origin_from_request (before ++ origin_header scheme rest ∷ after)
      ≡ some (trim (String.◌∷◌ (char 32 tt) scheme))
unfolding get_origin_from_request nth has
get_origin_from_request-scheme [] after scheme rest h plain =
    let value = str_append (String.◌∷◌ (char 32 tt) scheme) (String.◌∷◌ (char 58 tt) rest) in
    let known = origin_header-starts value in
    let one = split_at-append (char 58 tt) "Origin" value refl in
    let two = split_at-append (char 58 tt) (String.◌∷◌ (char 32 tt) scheme) rest plain in
    rw (known, one, two)
get_origin_from_request-scheme (line ∷ before) after scheme rest h plain =
    rw (h.0, get_origin_from_request-scheme before after scheme rest h.1 plain)

answer_lines-origin :
    (fs : FileSystem) (parse_uuid : String → Option ℕ) (host_of : String → Option (Option String))
    (lines : List String) (origin : String) (s : FileServer)
    → get_origin_from_request lines ≡ some origin
    → is_empty origin ≡ false
    → host_of origin ≡ none
    → answer_lines fs parse_uuid host_of lines s ≡ some forbidden
unfolding answer_lines origin_allowed get_origin_from_request
answer_lines-origin fs parse_uuid host_of [] origin s at some_text no_url = absurd (cc at)
answer_lines-origin fs parse_uuid host_of (line ∷ lines) origin s at some_text no_url =
    rw (at, some_text, no_url)

-- A request within the limit whose first Origin header has a colon in its value is refused,
-- whatever follows that colon, as `//localhost:8080` does: only the text before it, the scheme,
-- is tested. The trimmed scheme is not empty, and the parser of URLs refuses it.
pub handle_request-origin :
    (fs : FileSystem) (parse_uuid : String → Option ℕ) (host_of : String → Option (Option String))
    (now ip : ℕ) (before after : List String) (scheme rest : String) (s : FileServer)
    → (is_allowed now ip s.rate_limiter).0 ≡ true
    → All IsOther before
    → has 58 scheme ≡ false
    → is_empty (trim (String.◌∷◌ (char 32 tt) scheme)) ≡ false
    → host_of (trim (String.◌∷◌ (char 32 tt) scheme)) ≡ none
    → (handle_request fs parse_uuid host_of now ip
        (before ++ origin_header scheme rest ∷ after)
        s).0
      ≡ some forbidden
unfolding handle_request
handle_request-origin fs parse_uuid host_of now ip before after scheme rest s ok others plain
      some_text no_url =
    rw (ok) (
      answer_lines-origin fs parse_uuid host_of (before ++ origin_header scheme rest ∷ after)
        (trim (String.◌∷◌ (char 32 tt) scheme)) s
        (get_origin_from_request-scheme before after scheme rest others plain) some_text no_url)
