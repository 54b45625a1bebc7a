-- ===== src/Video/Recovers.antt =====
-- src/downloader.rs: the attempt that decides how a download ends.
use native.Mathlib.Nat.{zero-add, suc-add, add_assoc}
use x_videos_dowloads.Prelude.{
  ℕ, zero, suc, ◌+◌, ◌-◌, ◌*◌, ◌^◌, ◌≤◌, ◌<◌, ◌≡◌, ap, ◌∙◌, String, List, Option, some, ok, err,
  length, arith,
}
use x_videos_dowloads.Media.{DownloadResult, succeeded}
use x_videos_dowloads.Video.{
  DownloaderConfig, Host, get_content_length, try_download, attempts, download, delay_secs, Left,
}
use x_videos_dowloads.Video.Ranges.{HonoursRanges}
use x_videos_dowloads.Video.Ceil.{IsCeil}
use x_videos_dowloads.Video.Whole.{try_download-whole}

module _ (ceil_div : ℕ → ℕ → ℕ) (config : DownloaderConfig) (output_path : String)
    (elapsed : ℕ) where
  -- A host that answers the HEAD request, and whose body cannot be downloaded: nothing is written.
  pub record Fails (host : Host) : Type 0 where
    pub size : Option ℕ
    pub error : String
    pub told : get_content_length (host.head 0) ≡ ok size
    pub tried :
        (output : Option (List ℕ))
        → try_download ceil_div config output_path elapsed host size output ≡ (err error, output)

  -- The seconds waited before `count` attempts, the first of them numbered `attempt`.
  unfoldable pub waited : (count attempt : ℕ) → ℕ
  waited zero attempt = 0
  waited (suc count) attempt =
      delay_secs ceil_div config output_path elapsed attempt + waited count (suc attempt)

  -- Attempts that fail are passed over.
  attempts-Fails :
      (web : ℕ → Host) (k left attempt : ℕ) (output : Option (List ℕ))
      → ((i : ℕ) → attempt ≤ i → i < attempt + k → Fails (web i))
      → attempts ceil_div config output_path elapsed web (k + left) attempt output ≡ (
        (attempts ceil_div config output_path elapsed web left (attempt + k) output).0,
        waited k attempt
            + (attempts ceil_div config output_path elapsed web left (attempt + k) output).1,
      )
  unfolding attempts waited
  attempts-Fails web zero left attempt output h =
      let here : attempt + 0 ≡ attempt = omega arith in
      rw (
        zero-add left,
        here,
        zero-add (attempts ceil_div config output_path elapsed web left attempt output).1,
      )
  attempts-Fails web (suc k) left attempt output h =
      let f = h attempt (omega arith) (omega arith) in
      let later : suc attempt + k ≡ attempt + suc k = omega arith in
      let rest =
        attempts-Fails web k left (suc attempt) output
          (λ i low high. h i (omega arith) (omega arith)) in
      let wait = delay_secs ceil_div config output_path elapsed attempt in
      let end = attempts ceil_div config output_path elapsed web left (attempt + suc k) output in
      rw (suc-add k left, attempts, f.told, f.tried output, rest, later)
        (rw (add_assoc wait (waited k (suc attempt)) end.1))

  -- The attempt that decides.
  pub attempts-ok :
      (web : ℕ → Host) (left k : ℕ) (size : Option ℕ) (output after : Option (List ℕ))
      (result : DownloadResult)
      → 0 < left
      → get_content_length ((web k).head 0) ≡ ok size
      → try_download ceil_div config output_path elapsed (web k) size output ≡ (ok result, after)
      → attempts ceil_div config output_path elapsed web left k output
        ≡ ((ok result, after), delay_secs ceil_div config output_path elapsed k)
  unfolding attempts
  attempts-ok web zero k size output after result some_left told e = absurd (omega arith)
  attempts-ok web (suc left) k size output after result some_left told e = rw (attempts, told, e)

  attempts-err :
      (web : ℕ → Host) (left k : ℕ) (output : Option (List ℕ)) (e : String)
      → 0 < left
      → (web k).head 0 ≡ err e
      → attempts ceil_div config output_path elapsed web left k output
        ≡ ((err e, output), delay_secs ceil_div config output_path elapsed k)
  unfolding attempts
  attempts-err web zero k output e some_left failed = absurd (omega arith)
  attempts-err web (suc left) k output e some_left failed =
      let told : get_content_length ((web k).head 0) ≡ err e = rw failed in rw (attempts, told)

  -- What the attempt `k` gives, after `k` that failed.
  pub download-at :
      (web : ℕ → Host) (k : ℕ) (output : Option (List ℕ)) (end : Left)
      → k < config.retry_count
      → ((i : ℕ) → i < k → Fails (web i))
      → ((left : ℕ)
          → 0 < left
          → attempts ceil_div config output_path elapsed web left k output
            ≡ (end, delay_secs ceil_div config output_path elapsed k))
      → download ceil_div config output_path elapsed web output
        ≡ (end, waited k 0 + delay_secs ceil_div config output_path elapsed k)
  unfolding download
  download-at web k output end in_time h decides =
      let left = config.retry_count - k in
      let all : config.retry_count ≡ k + left = omega arith in
      let here : 0 + k ≡ k = omega arith in
      ap (λ n. attempts ceil_div config output_path elapsed web n 0 output) all
      ∙ attempts-Fails web k left 0 output (λ i low high. h i (omega arith))
      ∙ rw (here, decides left (omega arith))

  -- Where the hosts of the first `k` attempts answer the HEAD request and then fail without writing
  -- anything, and the host of attempt `k`, which is one of the attempts, honours ranges and has a
  -- content of fewer than 2^53 bytes and of at least the square of the number of segments: the
  -- download succeeds, in segments or not, reports the length and leaves exactly the content, having
  -- waited the delays of these attempts.
  pub download-whole :
      (web : ℕ → Host) (k : ℕ) (content : List ℕ) (output : Option (List ℕ))
      → IsCeil ceil_div
      → k < config.retry_count
      → ((i : ℕ) → i < k → Fails (web i))
      → HonoursRanges (web k) content
      → length content < 2 ^ 53
      → config.parallel_segments * config.parallel_segments ≤ length content
      → (duration_secs : ℕ) × (download ceil_div config output_path elapsed web output ≡ (
        (ok (succeeded output_path (length content) duration_secs), some content),
        waited k 0 + delay_secs ceil_div config output_path elapsed k,
      ))
  download-whole web k content output exact in_time failed h small square =
      let (d, tried) =
        try_download-whole ceil_div config output_path elapsed (web k) content output exact h small
          square in
      let told : get_content_length ((web k).head 0) ≡ ok (some (length content)) =
        rw (h.tells 0) in
      let result = succeeded output_path (length content) d in
      (
        d,
        download-at web k output (ok result, some content) in_time failed
            (λ left some_left.
              attempts-ok web left k (some (length content)) output (some content) result some_left
                told tried),
      )

  -- Where the hosts of the first `k` attempts fail in that way, and the HEAD request of attempt `k`
  -- meets an error, the download ends with that error and leaves the output as it is, however many
  -- attempts are left and whatever they would meet.
  pub download-head_error :
      (web : ℕ → Host) (k : ℕ) (output : Option (List ℕ)) (e : String)
      → k < config.retry_count
      → ((i : ℕ) → i < k → Fails (web i))
      → (web k).head 0 ≡ err e
      → download ceil_div config output_path elapsed web output
        ≡ ((err e, output), waited k 0 + delay_secs ceil_div config output_path elapsed k)
  download-head_error web k output e in_time failed no_answer =
      download-at web k output (err e, output) in_time failed
        (λ left some_left. attempts-err web left k output e some_left no_answer)
