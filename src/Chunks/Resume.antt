-- ===== src/Chunks/Resume.antt =====
-- src/collaboration/transfer/downloader.rs: a download that goes on where it stopped, and one that
-- is meant to.
use x_videos_dowloads.Prelude.{
  ℕ, ◌+◌, ◌-◌, ◌≤◌, ◌<◌, ◌≡◌, List, [], ◌++◌, some, ok, leb, length, take, drop, length-take,
  length-drop, take-append-drop, take_all, arith, Bool-cases, inl, inr,
}
use x_videos_dowloads.Chunks.{Peer, onwards, store_chunk, append_body, resume_from, download_file}
use x_videos_dowloads.Chunks.Received.{Honours, receive-Delivers}

-- Given the length of the file, an output file with its first `k` bytes is completed from a peer that
-- honours ranges.
pub resume_from-completes :
    (peer : Peer) (content : List ℕ) (k : ℕ)
    → Honours peer content
    → k ≤ length content
    → resume_from peer (length content) (some (take k content))
      ≡ (ok (length content), some content)
unfolding resume_from append_body
resume_from-completes peer content k h fits =
    let had : length (take k content) ≡ k = omega (arith, length-take k content) in
    elim (Bool-cases (leb (length content) k)) [
      | inl whole ↦ rw (had, whole, take_all k content (ground arith))
      | inr more ↦
          let (stream, got, delivers) = h (onwards k) (ground arith) in
          let total : k + length (drop k content) ≡ length content =
            omega (arith, length-drop k content) in
          rw (
            had,
            more,
            got,
            receive-Delivers stream (drop k content) k (take k content) delivers,
            total,
            take-append-drop k content,
          )
    ]

-- From a peer that honours ranges, a download that is to go on from byte `k`, before the end of the
-- file, returns `Ok` and leaves a file with the bytes from `k` on alone: it lacks the first `k`.
pub download_file-part :
    (peer : Peer) (content : List ℕ) (k : ℕ)
    → Honours peer content
    → k < length content
    → (download_file peer k ≡ (ok (length content - k), some (drop k content)))
      × (take k content ++ drop k content ≡ content)
unfolding download_file store_chunk
download_file-part peer content k h inside =
    let (stream, got, delivers) = h (onwards k) inside in
    let size : 0 + length (drop k content) ≡ length content - k =
      omega (arith, length-drop k content) in
    (
      rw (got, receive-Delivers stream (drop k content) 0 [] delivers, size),
      take-append-drop k content,
    )
