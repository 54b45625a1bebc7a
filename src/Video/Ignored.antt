-- ===== src/Video/Ignored.antt =====
-- src/downloader.rs: a download from a host that ignores the ranges it is asked for.
use x_videos_dowloads.Prelude.{
  ℕ, zero, suc, ◌+◌, ◌<◌, ◌≤◌, ◌*◌, ◌-◌, ◌≡◌, refl, true, false, String, List, [], ◌++◌, Option,
  some, ok, length, ap, ◌^◌, ◌==◌, arith,
}
use x_videos_dowloads.Media.{succeeded}
use x_videos_dowloads.Video.{
  DownloaderConfig, Host, parallel_download, merged, try_download, get_content_length, is_large,
  download, fetch_segments, segment_end, success_count, merge_segments,
}
use x_videos_dowloads.Video.Ranges.{IgnoresRanges, fetch_segment-Sends}
use x_videos_dowloads.Video.Ceil.{IsCeil, ceil-tiles}
use x_videos_dowloads.Video.Segments.{begins, ends}
use x_videos_dowloads.Video.Recovers.{waited, download-at, attempts-ok}

-- The bytes `n` times.
unfoldable pub copies : ℕ → List ℕ → List ℕ
copies zero bytes = []
copies (suc n) bytes = bytes ++ copies n bytes

fetch_segments-IgnoresRanges :
    (host : Host) (content : List ℕ) (segments c retry_count i rounds : ℕ)
    → IgnoresRanges host content
    → 0 < c
    → (i + rounds) * c < length content + c
    → let parts = fetch_segments host (length content) segments c retry_count i rounds in
      (merge_segments parts ≡ copies rounds content) × (success_count parts ≡ rounds)
unfolding fetch_segments success_count merge_segments copies
fetch_segments-IgnoresRanges host content segments c retry_count i zero h positive inside =
    (refl, refl)
fetch_segments-IgnoresRanges host content segments c retry_count i (suc rounds) h positive inside =
    let start = i * c in
    let end = segment_end (length content) segments c i in
    let before_end = begins i rounds c (length content) inside in
    let order = ends (length content) segments c i positive before_end in
    let one =
      fetch_segment-Sends host (length content) (λ ask. content) start end retry_count 0 [] h
        (before_end, order) in
    let further : (suc i + rounds) * c ≡ (i + suc rounds) * c = ap (λ k. k * c) (omega arith) in
    let more =
      fetch_segments-IgnoresRanges host content segments c retry_count (suc i) rounds h positive
        (omega (arith, further, inside)) in
    (rw (one, more.0), rw (one, more.1))

module _ (ceil_div : ℕ → ℕ → ℕ) (config : DownloaderConfig) (output_path : String)
    (elapsed : ℕ) where
  -- With at least one attempt, a first host that answers every range with the whole content, and a
  -- content of more than ten megabytes, below 2^53 bytes and at least the square of the number of
  -- segments: the download succeeds at once, reports the length of the content, and leaves as many
  -- copies of it as there are segments, one behind the other.
  pub download-copies :
      (web : ℕ → Host) (content : List ℕ) (output : Option (List ℕ))
      → IsCeil ceil_div
      → IgnoresRanges (web 0) content
      → 0 < config.retry_count
      → is_large ceil_div config output_path elapsed (length content) ≡ true
      → length content < 2 ^ 53
      → config.parallel_segments * config.parallel_segments ≤ length content
      → download ceil_div config output_path elapsed web output ≡ (
        (
          ok (succeeded output_path (length content) 0),
          some (copies config.parallel_segments content),
        ),
        0,
      )
  unfolding try_download parallel_download merged waited
  download-copies web content output exact h some_attempt large small square =
      let s = config.parallel_segments in
      let total = length content in
      let c = ceil_div total s in
      let some_segment : 0 < s = ground arith in
      let (positive, inside) = ceil-tiles ceil_div total s exact small some_segment square in
      let count : (0 + s) * c ≡ (0 + suc (s - 1)) * c = ap (λ k. k * c) (omega arith) in
      let parts =
        fetch_segments-IgnoresRanges (web 0) content s c config.retry_count 0 s h positive
          (omega (arith, count, inside)) in
      let some_part : (s == 0) ≡ false = ground arith in
      let told : get_content_length ((web 0).head 0) ≡ ok (some total) = rw (h.tells 0) in
      let result = succeeded output_path total 0 in
      download-at ceil_div config output_path elapsed web 0 output
        (ok result, some (copies s content)) some_attempt (λ i low. absurd (omega arith))
        (λ left some_left.
          attempts-ok ceil_div config output_path elapsed web left 0 (some total) output
            (some (copies s content)) result some_left told
            (rw (large, parts.1, some_part, parts.0)))
