-- ===== src/Files/Tests.antt =====
-- src/collaboration/transfer/http_server.rs on a concrete directory and concrete requests.
use x_videos_dowloads.Prelude.{
  ℕ, ◌-◌, ◌^◌, ◌≤◌, ◌≡◌, ◌↔◌, refl, String, true, List, [], ◌∷◌, ◌++◌, Option, none, some, length,
  retain, All, arith,
}
use x_videos_dowloads.Prelude.Colon.{has}
use x_videos_dowloads.Files.Limiter.{new_limiter, is_recent, is_allowed}
use x_videos_dowloads.Files.Range.{lower}
use x_videos_dowloads.Files.Cors.{trim_end, trim_start}
use x_videos_dowloads.Files.Serve.{partial_content, forbidden, serve_file}
use x_videos_dowloads.Files.Server.{FileServer, FileSystem, new_server, is_below, handle_request}
use x_videos_dowloads.Files.Rate.{Call, request, cleaned, accepted, accepted-le-max_requests}
use x_videos_dowloads.Files.Served.{serve_file_body, serve_file_wraps}
use x_videos_dowloads.Files.Origins.{origin_header, handle_request-origin}
use x_videos_dowloads.Files.Request.{arrived, ended, handle_connection, handle_connection-open}
use x_videos_dowloads.Files.Paths.{register, unregister, changed, register_file-below}

abbrev second : ℕ → ℕ
second n = Prim.Native.Nat.◌*◌ n 1_000_000_000

-- Three requests of one address, with a cleaning between them.
abbrev calls : List (ℕ × Call)
calls =
    (second 1, request 7)
    ∷ (second 2, request 7)
    ∷ (second 3, request 8)
    ∷ (second 4, cleaned)
    ∷ (second 5, request 7)
    ∷ []

accepted-le-max_requests_example :
    length (retain (is_recent 60 (second 6)) (accepted 7 calls (new_limiter 60 2))) ≤ 2
accepted-le-max_requests_example =
    accepted-le-max_requests 60 2 7 (second 6) calls
      (omega arith, (omega arith, (omega arith, (omega arith, (omega arith, omega arith)))))

abbrev bytes : List ℕ
bytes = 10 ∷ 11 ∷ 12 ∷ 13 ∷ []

part : serve_file (some (1, some 2)) "" bytes ≡ partial_content 2 1 2 4 "" bytes
unfolding serve_file
part = refl

serve_file_body_example :
    (bytes ≡ bytes) × ((◌≡◌ {A = ℕ} 2 4) ↔ ((◌≡◌ {A = ℕ} 1 0) × (◌≡◌ {A = ℕ} 3 4)))
serve_file_body_example = serve_file_body 1 2 2 1 2 4 "" "" bytes bytes part

serve_file_wraps_example :
    serve_file (some (0, some (2 ^ 64 - 1))) "" bytes ≡ partial_content 4 0 3 4 "" bytes
serve_file_wraps_example = serve_file_wraps "" bytes (omega arith) (omega arith)

-- One file below the directory `/srv/files`, every other path being elsewhere.
abbrev pub disk : FileSystem
disk = record {
  canonicalize = λ path. some ("srv" ∷ "files" ∷ path ∷ []);
  base = some ("srv" ∷ "files" ∷ []);
  resolve = λ path. some path;
  content = λ path. some bytes;
}

abbrev pub one_id : String → Option ℕ
one_id text = some 5

abbrev pub no_host : String → Option (Option String)
no_host origin = none

abbrev sharing : FileServer
sharing = record new_server { files = (5, "srv" ∷ "files" ∷ "a.mp4" ∷ []) ∷ [] }

let_in : (is_allowed 0 7 sharing.rate_limiter).0 ≡ true
unfolding is_allowed
let_in = refl

handle_request-origin_example :
    (handle_request disk one_id no_host 0 7
      ("GET /file/5 HTTP/1.1" ∷ origin_header "http" "//localhost:8080" ∷ [])
      sharing).0
    ≡ some forbidden
unfolding has lower trim_end trim_start
handle_request-origin_example =
    handle_request-origin disk one_id no_host 0 7 ("GET /file/5 HTTP/1.1" ∷ []) [] "http"
      "//localhost:8080" sharing let_in (refl, tt) refl refl refl

register_file-below_example :
    All
      (λ (e : ℕ × List String). is_below ("srv" ∷ "files" ∷ []) e.1 ≡ true)
      (changed disk (register 5 "a.mp4" ∷ unregister 6 ∷ []) new_server).files
register_file-below_example =
    register_file-below disk ("srv" ∷ "files" ∷ []) (register 5 "a.mp4" ∷ unregister 6 ∷ []) refl

-- Every text that is not empty is the request for the file of task 5.
abbrev request_line : List ℕ → List String
request_line [] = []
request_line (b ∷ bs) = "GET /file/5 HTTP/1.1" ∷ []

handle_connection-open_example :
    let answered = handle_request disk one_id no_host 0 7 (request_line (71 ∷ 69 ∷ [])) sharing in
    (handle_connection disk one_id no_host request_line 0 7
        (arrived ((71, []) ∷ (69, []) ∷ []))
        sharing
      ≡ (none, answered.1))
    × (handle_connection disk one_id no_host request_line 0 7
          (arrived ((71, []) ∷ (69, []) ∷ []) ++ ended ∷ [])
          sharing
        ≡ (some answered.0, answered.1))
handle_connection-open_example =
    handle_connection-open disk one_id no_host request_line 0 7 ((71, []) ∷ (69, []) ∷ []) sharing
      refl let_in (omega arith)
