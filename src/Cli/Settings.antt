-- ===== src/Cli/Settings.antt =====
-- src/main.rs: which settings of the configuration file matter for a download.
use x_videos_dowloads.Prelude.{
  ℕ, suc, ◌≡◌, refl, ap, ◌∙◌, String, Bool, List, [], ◌∷◌, Option, Result, ok, err, Result-cases,
  inl, inr,
}
use x_videos_dowloads.Config.{AppConfig}
use x_videos_dowloads.Media.{VideoInfo}
use x_videos_dowloads.History.{Disk, State}
use x_videos_dowloads.History.Saved.{started}
use x_videos_dowloads.Cli.{Cli}
use x_videos_dowloads.Cli.Download.{World, download_with_ytdlp, video_info}
use x_videos_dowloads.Cli.Loop.{asked_urls, Draw, with_info, process_url, process_urls, run_on, run}

module _ (w : World) (to_f64 : ℕ → ℕ) (cli : Cli) (c other : AppConfig)
    (same : c.output_dir ≡ other.output_dir) where
  download_with_ytdlp-same :
      (info : VideoInfo) → download_with_ytdlp w cli c info ≡ download_with_ytdlp w cli other info
  unfolding download_with_ytdlp
  download_with_ytdlp-same info = rw same

  with_info-same :
      (d : Draw) (url : String) (info : Result VideoInfo) (s : State)
      → with_info w to_f64 cli c d url info s ≡ with_info w to_f64 cli other d url info s
  unfolding with_info
  with_info-same d url (err e) s = refl
  with_info-same d url (ok info) s = rw (download_with_ytdlp-same info)

  process_url-same :
      (d : Draw) (url : String) (s : State)
      → process_url w to_f64 cli c d url s ≡ process_url w to_f64 cli other d url s
  unfolding process_url
  process_url-same d url s = rw (with_info-same d url (video_info w cli url) s)

  process_urls-same :
      (draws : ℕ → Draw) (index : ℕ) (urls : List String) (s : State)
      → process_urls w to_f64 cli c draws index urls s
        ≡ process_urls w to_f64 cli other draws index urls s
  unfolding process_urls
  process_urls-same draws index [] s = refl
  process_urls-same draws index (url ∷ urls) s = rw (
    process_url-same (draws index) url s,
    process_urls-same draws (suc index) urls (process_url w to_f64 cli other (draws index) url s).1,
  )

  run_on-same :
      (available : Bool) (read : String → Option (List String)) (draws : ℕ → Draw) (disk : Disk)
      → run_on w to_f64 cli c available read draws disk
        ≡ run_on w to_f64 cli other available read draws disk
  unfolding run_on
  run_on-same available read draws disk = elim (Result-cases (asked_urls cli read)) [
    | inr (e, none_asked) ↦ rw none_asked
    | inl (urls, asked) ↦ rw asked (rw (process_urls-same draws 0 urls (started w.float disk)))
  ]

  -- Two configurations with the same output directory give the same run: the proxy, the user agent,
  -- the cookie file, the format, the subtitles, the audio setting and the retries of the
  -- configuration file have no effect on it.
  pub run-output_dir :
      (available : Bool) (read : String → Option (List String)) (draws : ℕ → Draw)
      (disks : String → Disk)
      → run w to_f64 cli c available read draws disks
        ≡ run w to_f64 cli other available read draws disks
  unfolding run
  run-output_dir available read draws disks =
      run_on-same available read draws (disks c.output_dir)
      ∙ ap (λ dir. run_on w to_f64 cli other available read draws (disks dir)) same
