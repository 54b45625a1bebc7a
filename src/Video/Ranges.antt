-- ===== src/Video/Ranges.antt =====
-- src/downloader.rs: hosts that honour ranges, hosts that ignore them, and a segment from each.
use x_videos_dowloads.Prelude.{
  ℕ, zero, suc, ◌+◌, ◌-◌, ◌≤◌, ◌<◌, ◌≡◌, true, List, [], some, ok, length, take, drop, ◌∙◌, arith,
}
use x_videos_dowloads.Chunks.{Stream, receive}
use x_videos_dowloads.Chunks.Received.{Delivers, receive-Delivers}
use x_videos_dowloads.Video.{
  Asked, everything, onwards, between, Host, download_segment, fetch_segment,
}

-- The bytes that a request asks for.
abbrev pub asked_bytes : List ℕ → Asked → List ℕ
asked_bytes content everything = content
asked_bytes content (onwards start) = drop start content
asked_bytes content (between start end) = take (end + 1 - start) (drop start content)

-- A request that is not for an empty range of `size` bytes.
abbrev pub IsSatisfiable : (size : ℕ) → Asked → Type 0
IsSatisfiable size everything = Unit
IsSatisfiable size (onwards start) = start < size
IsSatisfiable size (between start end) = (start < size) × (start ≤ end)

-- Every request that can be satisfied is answered, with the bytes that `bytes` says.
pub record Sends (host : Host) (size : ℕ) (bytes : Asked → List ℕ) : Type 0 where
  pub tells : (n : ℕ) → host.head n ≡ ok (true, some size)
  pub sends :
      (n : ℕ) (ask : Asked)
      → IsSatisfiable size ask
      → (stream : Stream) × (host.get n ask ≡ ok (true, stream)) × Delivers stream (bytes ask)

-- A host with this content that answers every range that is not empty with the bytes asked for.
abbrev pub HonoursRanges : Host → List ℕ → Type 0
HonoursRanges host content = Sends host (length content) (asked_bytes content)

-- A host that sends the whole content whatever range is asked for, as HTTP lets it with status 200.
abbrev pub IgnoresRanges : Host → List ℕ → Type 0
IgnoresRanges host content = Sends host (length content) (λ ask. content)

pub receive-all :
    (stream : Stream) (bytes : List ℕ)
    → Delivers stream bytes
    → receive stream 0 [] ≡ (ok (length bytes), bytes)
receive-all stream bytes delivers =
    let z : 0 + length bytes ≡ length bytes = omega arith in
    receive-Delivers stream bytes 0 [] delivers ∙ rw z

-- The first try is enough.
pub fetch_segment-Sends :
    (host : Host) (size : ℕ) (bytes : Asked → List ℕ) (start end left attempt : ℕ) (file : List ℕ)
    → Sends host size bytes
    → IsSatisfiable size (between start end)
    → fetch_segment host start end left attempt file
      ≡ (ok (length (bytes (between start end))), bytes (between start end))
unfolding fetch_segment download_segment
fetch_segment-Sends host size bytes start end zero attempt file h inside =
    let (stream, got, delivers) = h.sends attempt (between start end) inside in
    rw (got, receive-all stream (bytes (between start end)) delivers)
fetch_segment-Sends host size bytes start end (suc left) attempt file h inside =
    let (stream, got, delivers) = h.sends attempt (between start end) inside in
    rw (got, receive-all stream (bytes (between start end)) delivers)
