-- ===== src/Video/Resumed.antt =====
-- src/downloader.rs: `resume_download`, of a file that holds the first bytes of the content.
use x_videos_dowloads.Prelude.{
  ℕ, zero, suc, ◌+◌, ◌<◌, ◌≡◌, ◌∙◌, String, List, ◌++◌, some, ok, length, take, drop,
  take-append-drop, length-drop, arith,
}
use x_videos_dowloads.Chunks.Received.{receive-Delivers}
use x_videos_dowloads.Media.{succeeded}
use x_videos_dowloads.Video.{
  Host, Asked, onwards, get_content_length, resume_download, continue_body,
}
use x_videos_dowloads.Video.Ranges.{Sends, HonoursRanges, IgnoresRanges, asked_bytes}

resume_download-Sends :
    (output_path : String) (elapsed k size : ℕ) (bytes : Asked → List ℕ) (host : Host)
    (file : List ℕ)
    → Sends host size bytes
    → 0 < k
    → k < size
    → resume_download output_path elapsed host k (some file) ≡ (
      ok (succeeded output_path (k + length (bytes (onwards k))) elapsed),
      some (file ++ bytes (onwards k)),
    )
unfolding resume_download continue_body
resume_download-Sends output_path elapsed zero size bytes host file h some_byte inside =
    absurd (omega arith)
resume_download-Sends output_path elapsed (suc k) size bytes host file h some_byte inside =
    let (stream, got, delivers) = h.sends 0 (onwards (suc k)) inside in
    let told : get_content_length (host.head 0) ≡ ok (some size) = rw (h.tells 0) in
    rw (
      resume_download,
      told,
      got,
      receive-Delivers stream (bytes (onwards (suc k))) (suc k) file delivers,
    )

-- From a host that honours ranges, with the first `k` bytes in the file, some but not all, the
-- download that goes on from byte `k` leaves the whole content and reports its length; from a host
-- that ignores ranges it succeeds as well, and leaves the first `k` bytes and the whole content
-- behind them.
pub resume_download-both :
    (output_path : String) (elapsed k : ℕ) (honest careless : Host) (content : List ℕ)
    → HonoursRanges honest content
    → IgnoresRanges careless content
    → 0 < k
    → k < length content
    → (resume_download output_path elapsed honest k (some (take k content))
        ≡ (ok (succeeded output_path (length content) elapsed), some content))
      × (resume_download output_path elapsed careless k (some (take k content)) ≡ (
        ok (succeeded output_path (k + length content) elapsed),
        some (take k content ++ content),
      ))
resume_download-both output_path elapsed k honest careless content h g some_byte inside =
    let size = length content in
    let total : k + length (drop k content) ≡ size = omega (arith, length-drop k content) in
    (
      resume_download-Sends output_path elapsed k size (asked_bytes content) honest (take k content)
            h some_byte inside
          ∙ rw (total, take-append-drop k content),
      resume_download-Sends output_path elapsed k size (λ ask. content) careless (take k content) g
          some_byte inside,
    )
