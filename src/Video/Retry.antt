-- ===== src/Video/Retry.antt =====
-- src/downloader.rs: the attempts of a download, and the time between them.
use native.Mathlib.Nat.{suc-mul}
use x_videos_dowloads.Prelude.{
  ℕ, zero, suc, ◌*◌, ◌≤◌, String, List, Option, is_ok, Bool-cases, Result-cases, inl, inr, arith,
}
use x_videos_dowloads.Video.{
  DownloaderConfig, Host, get_content_length, try_download, attempts, download, delay_secs,
}

module _ (ceil_div : ℕ → ℕ → ℕ) (config : DownloaderConfig) (output_path : String)
    (elapsed : ℕ) where
  delay_bound :
      (attempt : ℕ)
      → delay_secs ceil_div config output_path elapsed attempt ≤ config.retry_max_delay
  delay_bound zero = omega arith
  delay_bound (suc n) = omega arith

  attempts_wait :
      (web : ℕ → Host) (left attempt : ℕ) (output : Option (List ℕ))
      → (attempts ceil_div config output_path elapsed web left attempt output).1
        ≤ left * config.retry_max_delay
  unfolding attempts
  attempts_wait web zero attempt output = omega arith
  attempts_wait web (suc left) attempt output =
      let wait = delay_bound attempt in
      let all = suc-mul left config.retry_max_delay in
      elim (Result-cases (get_content_length ((web attempt).head 0))) [
        | inr (e, failed) ↦ rw (attempts, failed) (omega (arith, wait, all))
        | inl (size, told) ↦
            let run = try_download ceil_div config output_path elapsed (web attempt) size output in
            elim (Bool-cases (is_ok run.0)) [
              | inl t ↦ rw (attempts, told, t) (omega (arith, wait, all))
              | inr f ↦
                  rw (attempts, told, f)
                    (omega (arith, wait, all, attempts_wait web left (suc attempt) run.1))
            ]
      ]

  -- Whatever the hosts answer, a download ends after it has waited at most `retry_count` times
  -- `retry_max_delay` seconds between its attempts.
  pub download_wait :
      (web : ℕ → Host) (output : Option (List ℕ))
      → (download ceil_div config output_path elapsed web output).1
        ≤ config.retry_count * config.retry_max_delay
  unfolding download
  download_wait web output = attempts_wait web config.retry_count 0 output
