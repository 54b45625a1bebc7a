-- ===== src/Files/Cors.antt =====
-- src/collaboration/transfer/http_server.rs: `CorsAllowList`. The parser of the `url` crate is a
-- parameter: `host_of origin` is `none` where the text is no URL, and else the host, if any.
use Prim.Native.Char.{code}
use text.Mathlib.Text.{starts_with}
use x_videos_dowloads.Prelude.{
  ℕ, String, Bool, true, false, ◌&&◌, ◌||◌, List, [], ◌∷◌, ◌++◌, Option, none, some, leb, ◌==◌,
  if◌then◌else◌, any, str_eq, unwrap_or, is_empty,
}
use x_videos_dowloads.Prelude.Text.{split_at}
use x_videos_dowloads.Files.Range.{lower, nth}

pub record CorsAllowList : Type 0 where
  pub origins : List String
  pub allowed_hosts : List String

-- `CorsAllowList::new`
abbrev pub new_allow_list : CorsAllowList
new_allow_list = record {
  origins = [];
  allowed_hosts = "localhost" ∷ "127.0.0.1" ∷ "::1" ∷ "0.0.0.0" ∷ [];
}

-- `Vec::contains`
abbrev pub listed : String → List String → Bool
listed s l = any (str_eq s) l

-- The hosts after one more origin.
abbrev pub add_host : Option (Option String) → List String → List String
add_host (some (some host)) hosts = if listed host hosts then hosts else hosts ++ host ∷ []
add_host _ hosts = hosts

abbrev pub is_localhost : String → Bool
is_localhost host =
    str_eq host "localhost"
    || (str_eq host "127.0.0.1" || (str_eq host "::1" || str_eq host "0.0.0.0"))

-- `char::is_whitespace`
abbrev pub is_white : ℕ → Bool
is_white c =
    (leb 9 c && leb c 13)
    || c == 32
    || c == 133
    || c == 160
    || c == 5760
    || (leb 8192 c && leb c 8202)
    || c == 8232
    || c == 8233
    || c == 8239
    || c == 8287
    || c == 12288

unfoldable pub trim_start : String → String
trim_start String.[] = String.[]
trim_start (String.◌∷◌ ch s) =
    let rest = trim_start s in if is_white (code ch) then rest else String.◌∷◌ ch s

unfoldable pub trim_end : String → String
trim_end String.[] = String.[]
trim_end (String.◌∷◌ ch s) =
    let rest = trim_end s in
    if is_empty rest && is_white (code ch) then String.[] else String.◌∷◌ ch rest

-- `str::trim`
abbrev pub trim : String → String
trim s = trim_end (trim_start s)

abbrev pub trimmed : Option String → Option String
trimmed none = none
trimmed (some s) = some (trim s)

-- `get_origin_from_request`: the first line that is an origin decides.
unfoldable pub get_origin_from_request : List String → Option String
get_origin_from_request [] = none
get_origin_from_request (line ∷ lines) =
    let later = get_origin_from_request lines in
    if starts_with (lower line) "origin:" then trimmed (nth 1 (split_at 58 line)) else later

module _ (host_of : String → Option (Option String)) where
  -- `with_extra_origins`
  unfoldable pub with_extra_origins : List String → CorsAllowList → CorsAllowList
  with_extra_origins [] l = l
  with_extra_origins (origin ∷ more) l = with_extra_origins more (record l {
    origins = l.origins ++ origin ∷ [];
    allowed_hosts = add_host (host_of origin) l.allowed_hosts;
  })

  -- The three tests on an origin that is a URL.
  abbrev pub host_allowed : CorsAllowList → String → Option (Option String) → Bool
  host_allowed l origin none = false
  host_allowed l origin (some host) =
      is_localhost (unwrap_or host "")
      || (listed origin l.origins || listed (unwrap_or host "") l.allowed_hosts)

  -- `CorsAllowList::is_allowed`
  unfoldable pub origin_allowed : CorsAllowList → String → Bool
  origin_allowed l origin = if is_empty origin then true else host_allowed l origin (host_of origin)
