-- ===== src/Files/Serve.antt =====
-- src/collaboration/transfer/http_server.rs: `serve_file`, the answer to a request for a file.
use Prim.Native.String.{◌++◌ as str_append}
use x_videos_dowloads.Prelude.{
  ℕ, ◌+◌, ◌-◌, ◌*◌, ◌%◌, ◌^◌, String, List, Option, none, some, ltb, leb, if◌then◌else◌, unwrap_or,
  min, length, is_empty,
}

-- The CORS lines of an answer.
abbrev pub build_cors_headers : String → String
build_cors_headers origin =
    if is_empty origin
    then ""
    else str_append (str_append "Access-Control-Allow-Origin: " origin)
        "\r\nAccess-Control-Allow-Credentials: true"

-- What is written to the stream: the status with the values of its headers, and the body.
pub data Response : Type 0 where
  too_many_requests : Response
  forbidden : Response
  not_found : (cors_headers : String) → Response
  not_satisfiable : (cors_headers : String) → Response
  partial_content :
      (content_length start end file_size : ℕ) (cors_headers : String) (body : List ℕ) → Response
  whole : (content_length : ℕ) (cors_headers : String) (body : List ℕ) → Response

-- `MAX_RANGE_SIZE`
abbrev pub max_range_size : ℕ
max_range_size = 100 * 1024 * 1024

-- The answer once a range satisfies the checks; the file is copied from its start.
abbrev pub send_part : (start end : ℕ) → (cors_headers : String) → List ℕ → Response
send_part start end cors_headers content =
    let last = min end (length content - 1) in
    partial_content (last - start + 1) start last (length content) cors_headers content

-- The bytes asked for, where `start` is at most `end`; the sum wraps on a `u64`.
abbrev pub range_size : (start end : ℕ) → ℕ
range_size start end = (end - start + 1) % 2 ^ 64

unfoldable pub serve_part : (start end : ℕ) → (cors_headers : String) → List ℕ → Response
serve_part start end cors_headers content =
    if ltb end start
    then not_satisfiable cors_headers
    else if ltb max_range_size (range_size start end)
    then not_satisfiable cors_headers
    else send_part start end cors_headers content

-- `serve_file` on the bytes of a file, once its path has been checked.
unfoldable pub serve_file : Option (ℕ × Option ℕ) → (cors_headers : String) → List ℕ → Response
unfolding serve_part
serve_file none cors_headers content = whole (length content) cors_headers content
serve_file (some (start, end)) cors_headers content =
    if leb (length content) start
    then not_satisfiable cors_headers
    else serve_part start (unwrap_or end (length content - 1)) cors_headers content
