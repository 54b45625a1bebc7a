-- ===== src/Chunks.antt =====
-- src/collaboration/transfer/downloader.rs: `ChunkedDownloader`, which fetches a file from a peer.
-- The HTTP client is a parameter, `Peer`; a body arrives as a stream of chunks, and the first error
-- of the network or of the disk ends it.
pub mod Received
pub mod Resume
pub mod Parallel
pub mod Head
pub mod Tests
use x_videos_dowloads.Prelude.{
  ℕ, zero, suc, ◌+◌, ◌-◌, ◌*◌, ◌/◌, String, List, [], ◌∷◌, ◌++◌, Option, none, some, Result, ok,
  err, leb, min, length, unwrap_or, if◌then◌else◌,
}

-- `response.bytes_stream()`
abbrev pub Stream : Type 0
Stream = List (Result (List ℕ))

-- The Range header of a request: `bytes={start}-` or `bytes={start}-{end}`.
pub data Ask : Type 0 where
  onwards : (start : ℕ) → Ask
  between : (start end : ℕ) → Ask

-- The answers of a peer to the URL of a task: what `content_length()` says of the answer to a HEAD
-- request, which is the size of its body where that is known, and not its header; and the body of a
-- GET request, whatever its status.
pub record Peer : Type 0 where
  pub head : Result (Option ℕ)
  pub get : Ask → Result Stream

-- The loop that writes a body behind a file: how many bytes there are then, and the file.
unfoldable pub receive : Stream → (downloaded : ℕ) → List ℕ → Result ℕ × List ℕ
receive [] downloaded file = (ok downloaded, file)
receive (ok chunk ∷ stream) downloaded file =
    receive stream (downloaded + length chunk) (file ++ chunk)
receive (err e ∷ stream) downloaded file = (err e, file)

-- The output file after a body that was asked for from byte `existing_size` on.
unfoldable pub append_body :
    Result Stream → (existing_size : ℕ) → List ℕ → Result ℕ × Option (List ℕ)
unfolding receive
append_body (err e) existing_size file = (err e, some file)
append_body (ok stream) existing_size file =
    let (result, after) = receive stream existing_size file in (result, some after)

unfoldable pub resume_from : Peer → (total_size : ℕ) → Option (List ℕ) → Result ℕ × Option (List ℕ)
unfolding append_body
resume_from peer total_size output =
    let existing_size = length (unwrap_or output []) in
    if leb total_size existing_size
    then (ok total_size, output)
    else append_body (peer.get (onwards existing_size)) existing_size (unwrap_or output [])

-- `ChunkedDownloader::download_from_peer`: its result, and the output file, if there is one.
unfoldable pub download_from_peer : Peer → Option (List ℕ) → Result ℕ × Option (List ℕ)
unfolding resume_from
download_from_peer peer output = elim peer.head [
  | err e ↦ (err e, output)
  | ok none ↦ (err "服务器未返回 Content-Length", output)
  | ok (some total_size) ↦ resume_from peer total_size output
]

-- `u64::div_ceil` by a number that is not 0.
abbrev pub div_ceil : ℕ → ℕ → ℕ
div_ceil a b = (a + (b - 1)) / b

-- `start` and `end` of a chunk.
abbrev pub chunk_bounds : (total_size chunk_size chunk_idx : ℕ) → ℕ × ℕ
chunk_bounds total_size chunk_size chunk_idx =
    (chunk_idx * chunk_size, min (chunk_idx * chunk_size + chunk_size - 1) (total_size - 1))

-- A chunk that is asked for: what the task returns, and its file, if it was created.
unfoldable pub store_chunk : Result Stream → Result ℕ × Option (List ℕ)
unfolding receive
store_chunk (err e) = (err e, none)
store_chunk (ok stream) = let (result, file) = receive stream 0 [] in (result, some file)

-- `download_chunk_arc`
abbrev pub download_chunk : Peer → ℕ × ℕ → Result ℕ × Option (List ℕ)
download_chunk peer (start, end) = store_chunk (peer.get (between start end))

-- The tasks of the chunks from `chunk_idx` on, of which `rounds` are left.
unfoldable pub download_chunks :
    Peer → (total_size chunk_size chunk_idx rounds : ℕ) → List (Result ℕ × Option (List ℕ))
unfolding store_chunk
download_chunks peer total_size chunk_size chunk_idx zero = []
download_chunks peer total_size chunk_size chunk_idx (suc rounds) =
    download_chunk peer (chunk_bounds total_size chunk_size chunk_idx)
    ∷ download_chunks peer total_size chunk_size (suc chunk_idx) rounds

-- The sizes of the tasks that succeed.
abbrev pub size_of : Result ℕ → ℕ
size_of (ok size) = size
size_of (err e) = 0

unfoldable pub total_downloaded : List (Result ℕ × Option (List ℕ)) → ℕ
total_downloaded [] = 0
total_downloaded (c ∷ cs) = size_of c.0 + total_downloaded cs

-- The files that exist, one behind the other.
unfoldable pub merge_chunks : List (Result ℕ × Option (List ℕ)) → List ℕ
merge_chunks [] = []
merge_chunks (c ∷ cs) = unwrap_or c.1 [] ++ merge_chunks cs

-- The chunks that are downloaded: the loop breaks after `num_connections` of them.
abbrev pub num_started : (total_size chunk_size num_connections : ℕ) → ℕ
num_started total_size chunk_size num_connections =
    min num_connections (div_ceil total_size chunk_size)

unfoldable pub in_chunks :
    Peer → (total_size chunk_size num_connections : ℕ) → Result ℕ × Option (List ℕ)
unfolding download_chunks total_downloaded merge_chunks
in_chunks peer total_size chunk_size num_connections =
    let chunks =
      download_chunks peer total_size chunk_size 0
        (num_started total_size chunk_size num_connections) in
    (ok (total_downloaded chunks), some (merge_chunks chunks))

-- `ChunkedDownloader::download_parallel`; a file of up to two chunks is downloaded at once.
unfoldable pub download_parallel :
    Peer → (chunk_size num_connections : ℕ) → Option (List ℕ) → Result ℕ × Option (List ℕ)
unfolding download_from_peer in_chunks
download_parallel peer chunk_size num_connections output = elim peer.head [
  | err e ↦ (err e, output)
  | ok none ↦ (err "服务器未返回 Content-Length", output)
  | ok (some total_size) ↦
      if leb total_size (chunk_size * 2)
      then download_from_peer peer output
      else in_chunks peer total_size chunk_size num_connections
]

-- `ChunkedDownloader::download_file`: the file is created anew, whatever is asked for.
unfoldable pub download_file : Peer → (from_byte : ℕ) → Result ℕ × Option (List ℕ)
unfolding store_chunk
download_file peer from_byte = store_chunk (peer.get (onwards from_byte))
