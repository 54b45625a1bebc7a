-- ===== src/Files/Request.antt =====
-- src/collaboration/transfer/http_server.rs: how a request is read, up to the end of what the client
-- sends, before it is answered. The lines of a text are a parameter, `lines_of`.
use x_videos_dowloads.Prelude.{
  ℕ, ◌*◌, ◌<◌, ◌≡◌, refl, ap, ◌∙◌, sym, String, true, false, List, [], ◌∷◌, ◌++◌, append-nil,
  append_assoc, Option, none, some, length, length-append, leb, if◌then◌else◌, arith,
}
use x_videos_dowloads.Files.Limiter.{is_allowed}
use x_videos_dowloads.Files.Serve.{Response, too_many_requests}
use x_videos_dowloads.Files.Server.{FileServer, FileSystem, answer_lines, handle_request}

-- What a read of the stream gives: a byte and maybe more, as many as there is room for at most, the
-- end, for which it returns 0, or an error.
-- A client that sends nothing more and keeps the connection open gives nothing.
pub data Read : Type 0 where
  bytes : (first : ℕ) (more : List ℕ) → Read
  ended : Read
  broken : Read

-- How the loop goes: it ends with the request, it ends with an error, or it waits for the next read.
pub data Received : Type 0 where
  whole : List ℕ → Received
  too_large : Received
  lost : Received
  waiting : Received

-- `max_request_size`
abbrev pub max_request_size : ℕ
max_request_size = 10 * 1024 * 1024

-- The loop that reads the request; a buffer that is full is made larger, up to the limit.
unfoldable pub read_request : List Read → (buffer : List ℕ) → Received
read_request [] buffer = if leb max_request_size (length buffer) then too_large else waiting
read_request (ended ∷ reads) buffer =
    if leb max_request_size (length buffer) then too_large else whole buffer
read_request (broken ∷ reads) buffer =
    if leb max_request_size (length buffer) then too_large else lost
read_request (bytes first more ∷ reads) buffer =
    let rest = read_request reads (buffer ++ first ∷ more) in
    if leb max_request_size (length buffer) then too_large else rest

module _ (fs : FileSystem) (parse_uuid : String → Option ℕ)
    (host_of : String → Option (Option String)) (lines_of : List ℕ → List String) where
  -- The answer to a request; there is none at all while the loop waits.
  abbrev pub answer_received : Received → FileServer → Option (Option Response)
  answer_received (whole []) s = some none
  answer_received (whole (b ∷ bs)) s =
      some (answer_lines fs parse_uuid host_of (lines_of (b ∷ bs)) s)
  answer_received too_large s = some none
  answer_received lost s = some none
  answer_received waiting s = none

  -- `handle_request` on a connection: the answer, or none where it is closed without one, once it is
  -- done.
  unfoldable pub handle_connection :
      (now ip : ℕ) → List Read → FileServer → Option (Option Response) × FileServer
  unfolding read_request
  handle_connection now ip reads s =
      let (allowed, limiter) = is_allowed now ip s.rate_limiter in
      if allowed
      then (answer_received (read_request reads []) s, record s { rate_limiter = limiter })
      else (some (some too_many_requests), record s { rate_limiter = limiter })

-- All the bytes of the pieces, each with its first byte.
abbrev pub joined : List (ℕ × List ℕ) → List ℕ
joined [] = []
joined ((first, more) ∷ chunks) = (first ∷ more) ++ joined chunks

-- The reads that give these pieces.
abbrev pub arrived : List (ℕ × List ℕ) → List Read
arrived [] = []
arrived ((first, more) ∷ chunks) = bytes first more ∷ arrived chunks

read_request-chunks :
    (chunks : List (ℕ × List ℕ)) (rest : List Read) (buffer : List ℕ)
    → length (buffer ++ joined chunks) < max_request_size
    → read_request (arrived chunks ++ rest) buffer ≡ read_request rest (buffer ++ joined chunks)
unfolding read_request
read_request-chunks [] rest buffer small = rw (append-nil buffer)
read_request-chunks ((first, more) ∷ chunks) rest buffer small =
    let chunk : List ℕ = first ∷ more in
    let room : leb max_request_size (length buffer) ≡ false =
      let e = length-append buffer (chunk ++ joined chunks) in ground (arith, e) in
    let same = append_assoc buffer chunk (joined chunks) in
    rw room (
      read_request-chunks chunks rest (buffer ++ chunk) (rw same small)
      ∙ ap (read_request rest) same)

read_request-open :
    (chunks : List (ℕ × List ℕ))
    → length (joined chunks) < max_request_size
    → read_request (arrived chunks) [] ≡ waiting
unfolding read_request
read_request-open chunks small =
    let room : leb max_request_size (length (joined chunks)) ≡ false = ground arith in
    ap (λ rs. read_request rs []) (sym (append-nil (arrived chunks)))
    ∙ read_request-chunks chunks [] [] small
    ∙ rw room

read_request-ended :
    (chunks : List (ℕ × List ℕ))
    → length (joined chunks) < max_request_size
    → read_request (arrived chunks ++ ended ∷ []) [] ≡ whole (joined chunks)
unfolding read_request
read_request-ended chunks small =
    let room : leb max_request_size (length (joined chunks)) ≡ false = ground arith in
    read_request-chunks chunks (ended ∷ []) [] small ∙ rw room

answer_whole :
    (fs : FileSystem) (parse_uuid : String → Option ℕ) (host_of : String → Option (Option String))
    (lines_of : List ℕ → List String) (content : List ℕ) (s : FileServer)
    → lines_of [] ≡ []
    → answer_received fs parse_uuid host_of lines_of (whole content) s
      ≡ some (answer_lines fs parse_uuid host_of (lines_of content) s)
unfolding answer_lines
answer_whole fs parse_uuid host_of lines_of [] s empty = rw empty
answer_whole fs parse_uuid host_of lines_of (b ∷ bs) s empty = refl

-- A client within the limit of requests that sends less than 10 MB, in whatever pieces, is not
-- answered while it keeps its side of the connection open, whatever it has sent, a whole request
-- included; once it has closed that side, it is answered as `handle_request` answers the lines of
-- what it sent. Either way the request counts for the limit. An empty text has no lines.
pub handle_connection-open :
    (fs : FileSystem) (parse_uuid : String → Option ℕ) (host_of : String → Option (Option String))
    (lines_of : List ℕ → List String) (now ip : ℕ) (chunks : List (ℕ × List ℕ)) (s : FileServer)
    → lines_of [] ≡ []
    → (is_allowed now ip s.rate_limiter).0 ≡ true
    → length (joined chunks) < max_request_size
    → let answered = handle_request fs parse_uuid host_of now ip (lines_of (joined chunks)) s in
      (handle_connection fs parse_uuid host_of lines_of now ip (arrived chunks) s
        ≡ (none, answered.1))
      × (handle_connection fs parse_uuid host_of lines_of now ip (arrived chunks ++ ended ∷ []) s
          ≡ (some answered.0, answered.1))
unfolding handle_connection handle_request
handle_connection-open fs parse_uuid host_of lines_of now ip chunks s empty fresh small = (
  rw (fresh, read_request-open chunks small),
  rw (
    fresh,
    read_request-ended chunks small,
    answer_whole fs parse_uuid host_of lines_of (joined chunks) s empty,
  ),
)
