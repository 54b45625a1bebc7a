-- ===== src/Video/Whole.antt =====
-- src/downloader.rs: a download from a host that honours ranges.
use native.Mathlib.Nat.{zero-mul}
use x_videos_dowloads.Prelude.{
  ℕ, suc, ◌*◌, ◌^◌, ◌≤◌, ◌<◌, ◌≡◌, false, String, List, Option, some, ok, length, drop, Bool-cases,
  inl, inr, ◌==◌, arith, subst, ◌-◌,
}
use x_videos_dowloads.Media.{succeeded}
use x_videos_dowloads.Video.{
  DownloaderConfig, Host, everything, do_download, save_body, parallel_download, merged,
  try_download, is_large, fetch_segments, success_count, merge_segments, get_content_length,
}
use x_videos_dowloads.Video.Ranges.{HonoursRanges, Sends, asked_bytes, receive-all}
use x_videos_dowloads.Video.Ceil.{IsCeil, ceil-tiles}
use x_videos_dowloads.Video.Segments.{fetch_segments-HonoursRanges}

-- The plain download of a body, whatever range it would be sent for.
pub do_download-Sends :
    (output_path : String) (elapsed size : ℕ) (bytes : _) (host : Host) (output : Option (List ℕ))
    → Sends host size bytes
    → do_download output_path elapsed host output
      ≡ (ok (succeeded output_path (length (bytes everything)) elapsed), some (bytes everything))
unfolding do_download save_body
do_download-Sends output_path elapsed size bytes host output h =
    let (stream, got, delivers) = h.sends 0 everything tt in
    let told : get_content_length (host.head 1) ≡ ok (some size) = rw (h.tells 1) in
    rw (do_download, told, got, receive-all stream (bytes everything) delivers)

module _ (ceil_div : ℕ → ℕ → ℕ) (config : DownloaderConfig) (output_path : String)
    (elapsed : ℕ) where
  -- With no more segments than the square root of the length, the file is whole.
  parallel_download-whole :
      (host : Host) (content : List ℕ) (output : Option (List ℕ))
      → IsCeil ceil_div
      → HonoursRanges host content
      → length content < 2 ^ 53
      → 0 < config.parallel_segments
      → config.parallel_segments * config.parallel_segments ≤ length content
      → parallel_download ceil_div config output_path elapsed host (length content) output
        ≡ (ok (succeeded output_path (length content) 0), some content)
  unfolding parallel_download merged
  parallel_download-whole host content output exact h small some_segment square =
      let s = config.parallel_segments in
      let total = length content in
      let c = ceil_div total s in
      let (positive, inside) = ceil-tiles ceil_div total s exact small some_segment square in
      let counted : suc (s - 1) ≡ s = omega arith in
      let parts =
        subst
          (λ n.
            let parts = fetch_segments host total s c config.retry_count 0 n in
            (merge_segments parts ≡ drop (0 * c) content) × (success_count parts ≡ n))
          counted
          (fetch_segments-HonoursRanges host content s c config.retry_count 0 (s - 1) h positive
            inside (omega arith)) in
      let first : drop (0 * c) content ≡ content = rw (zero-mul c) in
      let some_part : (s == 0) ≡ false = ground arith in rw (parts.1, some_part, parts.0, first)

  -- An attempt at a host that honours ranges, in segments or not.
  pub try_download-whole :
      (host : Host) (content : List ℕ) (output : Option (List ℕ))
      → IsCeil ceil_div
      → HonoursRanges host content
      → length content < 2 ^ 53
      → config.parallel_segments * config.parallel_segments ≤ length content
      → (duration_secs : ℕ) × (try_download ceil_div config output_path elapsed host
            (some (length content))
            output
          ≡ (ok (succeeded output_path (length content) duration_secs), some content))
  unfolding try_download
  try_download-whole host content output exact h small square =
      let size = length content in
      let plain = do_download-Sends output_path elapsed size (asked_bytes content) host output h in
      elim (Bool-cases (is_large ceil_div config output_path elapsed size)) [
        | inr f ↦ (elapsed, rw (f, plain))
        | inl t ↦
            let some_segment : 0 < config.parallel_segments = ground arith in
            let parallel =
              parallel_download-whole host content output exact h small some_segment square in
            (0, rw (t, parallel))
      ]
