-- ===== src/Files/Server.antt =====
-- src/collaboration/transfer/http_server.rs: `FileServer`. The file system at a moment, the parser
-- of identifiers and the parser of URLs are parameters.
use Prim.Native.Char.{code}
use text.Mathlib.Text.{starts_with}
use x_videos_dowloads.Prelude.{
  ℕ, String, Bool, true, false, ◌&&◌, not, List, [], ◌∷◌, ◌++◌, Option, none, some, Result, ok, err,
  ◌==◌, str_eq, if◌then◌else◌, find, retain, unwrap_or, leb, length,
}
use x_videos_dowloads.Prelude.Text.{split_at}
use x_videos_dowloads.Files.Limiter.{RateLimiter, new_limiter, is_allowed}
use x_videos_dowloads.Files.Cors.{
  CorsAllowList, new_allow_list, get_origin_from_request, origin_allowed, is_white, trim_start,
}
use x_videos_dowloads.Files.Range.{parse_range, nth}
use x_videos_dowloads.Files.Serve.{
  Response, too_many_requests, forbidden, not_found, serve_file, build_cors_headers,
}

-- `files`, an entry to a task: a canonical path is the list of its components.
pub record FileServer : Type 0 where
  pub files : List (ℕ × List String)
  pub rate_limiter : RateLimiter
  pub cors_allow_list : CorsAllowList

-- `FileServer::new`
abbrev pub new_server : FileServer
new_server = record {
  files = [];
  rate_limiter = new_limiter 60 100;
  cors_allow_list = new_allow_list;
}

-- What the file system answers: the components of a canonical path, those of the directory
-- `files` below the current one, and the bytes of a file.
pub record FileSystem : Type 0 where
  pub canonicalize : String → Option (List String)
  pub base : Option (List String)
  pub resolve : List String → Option (List String)
  pub content : List String → Option (List ℕ)

-- `Path::starts_with`, component by component.
abbrev pub is_below : List String → List String → Bool
is_below [] path = true
is_below (b ∷ bs) [] = false
is_below (b ∷ bs) (p ∷ ps) = str_eq b p && is_below bs ps

-- `HashMap::insert`
abbrev pub insert_file : ℕ → List String → List (ℕ × List String) → List (ℕ × List String)
insert_file task_id path files =
    retain (λ (e : ℕ × List String). not (e.0 == task_id)) files ++ (task_id, path) ∷ []

unfoldable pub register_canonical :
    ℕ → Option (List String) → Option (List String) → FileServer → Result (Unit {0}) × FileServer
register_canonical task_id none base s = (err "无法获取规范路径", s)
register_canonical task_id (some path) none s = (err "files 目录不存在", s)
register_canonical task_id (some path) (some base) s =
    if is_below base path
    then (ok tt, record s { files = insert_file task_id path s.files })
    else (err "路径遍历攻击尝试被阻止", s)

-- `FileServer::register_file`
unfoldable pub register_file : FileSystem → ℕ → String → FileServer → Result (Unit {0}) × FileServer
unfolding register_canonical
register_file fs task_id path s = register_canonical task_id (fs.canonicalize path) fs.base s

-- `FileServer::unregister_file`
unfoldable pub unregister_file : ℕ → FileServer → FileServer
unregister_file task_id s = record s {
  files = retain (λ (e : ℕ × List String). not (e.0 == task_id)) s.files;
}

-- The path of a task, if it has one.
unfoldable pub get_file : ℕ → FileServer → Option (List String)
get_file task_id s = elim (find (λ (e : ℕ × List String). e.0 == task_id) s.files) [
  | none ↦ none
  | some e ↦ some e.1
]

-- `validate_path`: the path, resolved again, is below the directory.
abbrev pub validate_path : Option (List String) → Option (List String) → Bool
validate_path (some path) (some base) = is_below base path
validate_path _ _ = false

-- The text up to the first white space.
abbrev pub up_to_white : String → String
up_to_white String.[] = String.[]
up_to_white (String.◌∷◌ ch s) =
    let rest = up_to_white s in if is_white (code ch) then String.[] else String.◌∷◌ ch rest

-- `parts[3].split_whitespace().next().unwrap_or("")`
unfoldable pub first_word : Option String → String
first_word none = ""
first_word (some part) = up_to_white (trim_start part)

module _ (fs : FileSystem) (parse_uuid : String → Option ℕ)
    (host_of : String → Option (Option String)) where
  -- The task that the request line names: `GET /file/{task_id} HTTP/1.1`.
  unfoldable pub requested_task : String → Option ℕ
  unfolding first_word nth
  requested_task line =
      if starts_with line "GET /file/" && leb 4 (length (split_at 47 line))
      then parse_uuid (first_word (nth 3 (split_at 47 line)))
      else none

  -- A file that is registered: its bytes are sent unless its path fails the check, which ends the
  -- request without an answer.
  unfoldable pub answer_file : List String → String → List String → Option Response
  answer_file lines origin path =
      if validate_path (fs.resolve path) fs.base
      then elim (fs.content path) [
        | none ↦ none
        | some bytes ↦ some (serve_file (parse_range lines) (build_cors_headers origin) bytes)
      ]
      else none

  unfoldable pub answer_path : List String → String → Option (List String) → Option Response
  unfolding answer_file
  answer_path lines origin none = some (not_found (build_cors_headers origin))
  answer_path lines origin (some path) = answer_file lines origin path

  unfoldable pub answer_task : List String → String → FileServer → Option ℕ → Option Response
  unfolding answer_path get_file
  answer_task lines origin s none = some (not_found (build_cors_headers origin))
  answer_task lines origin s (some task_id) = answer_path lines origin (get_file task_id s)

  -- The first line, or the empty text.
  abbrev pub first_line : List String → String
  first_line [] = ""
  first_line (line ∷ lines) = line

  -- The answer to a request that has lines.
  unfoldable pub answer_lines : List String → FileServer → Option Response
  unfolding requested_task answer_task
  answer_lines [] s = none
  answer_lines (line ∷ lines) s =
      let origin = unwrap_or (get_origin_from_request (line ∷ lines)) "" in
      if origin_allowed host_of s.cors_allow_list origin
      then answer_task (line ∷ lines) origin s (requested_task line)
      else some forbidden

  -- `handle_request`, on the lines of a request that was read to its end, as Files/Request does; an
  -- empty request has none. What is not answered is a closed connection.
  unfoldable pub handle_request :
      (now ip : ℕ) → List String → FileServer → Option Response × FileServer
  unfolding answer_lines
  handle_request now ip lines s =
      let (allowed, limiter) = is_allowed now ip s.rate_limiter in
      if allowed
      then (answer_lines lines s, record s { rate_limiter = limiter })
      else (some too_many_requests, record s { rate_limiter = limiter })
