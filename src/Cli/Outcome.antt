-- ===== src/Cli/Outcome.antt =====
-- src/main.rs: what the history says of downloads by yt-dlp.
use x_videos_dowloads.Prelude.{
  ℕ, suc, ◌≡◌, refl, ap, ◌∙◌, String, Bool, false, List, [], ◌∷◌, map, some, Result, ok, err, All,
}
use x_videos_dowloads.Config.{AppConfig}
use x_videos_dowloads.Media.{VideoInfo}
use x_videos_dowloads.History.{HistoryEntry, State, fine, add_entry}
use x_videos_dowloads.Cli.{Cli}
use x_videos_dowloads.Cli.Paths.{chosen_dir, ready_dir}
use x_videos_dowloads.Cli.Download.{World, video_info, download_with_ytdlp, download_command}
use x_videos_dowloads.Cli.Loop.{Draw, with_info, process_url, process_urls, or_stop}

-- The URLs of the history, the newest first.
abbrev pub urls_of : State → List String
urls_of s = map (λ (e : HistoryEntry). e.url) s.history.entries

unfoldable pub reversed_onto : List String → List String → List String
reversed_onto [] onto = onto
reversed_onto (url ∷ urls) onto = reversed_onto urls (url ∷ onto)

or_stop-ok : (step rest : Result (Unit {0}) × State) → step.0 ≡ ok tt → or_stop step rest ≡ rest
or_stop-ok (ok u, s) rest e = refl
or_stop-ok (err m, s) rest e = absurd (cc e)

module _ (w : World) (to_f64 : ℕ → ℕ) (cli : Cli) (config : AppConfig) where
  -- The URL can be looked up, and yt-dlp can be started for it: how it ends is left open.
  pub record IsStarted (dir url : String) : Type 0 where
    pub info : VideoInfo
    pub success : Bool
    pub looked_up : video_info w cli url ≡ ok info
    pub started : w.downloads (download_command w cli info dir) ≡ some success

  process_url-IsStarted :
      (d : Draw) (dir url : String) (s : State)
      → cli.direct ≡ false
      → cli.list_formats ≡ false
      → ready_dir w.fs (chosen_dir cli.output config.output_dir) ≡ ok dir
      → d.fault ≡ fine
      → IsStarted dir url
      → ((process_url w to_f64 cli config d url s).0 ≡ ok tt)
        × (urls_of (process_url w to_f64 cli config d url s).1 ≡ url ∷ urls_of s)
  unfolding process_url with_info download_with_ytdlp add_entry
  process_url-IsStarted d dir url s by_ytdlp no_list ready no_fault h =
      let done : download_with_ytdlp w cli config h.info ≡ ok tt =
        rw (download_with_ytdlp, ready, h.started) in
      (
        rw (by_ytdlp, h.looked_up, no_list, done, no_fault),
        rw (by_ytdlp, h.looked_up, no_list, done),
      )

  -- Without `--direct` and `--list-formats`, with an output directory that is ready and a history
  -- that can be written: where every URL is looked up and yt-dlp is started for it, the run succeeds
  -- and the history gets an entry for each URL, the last one first, however yt-dlp ends.
  pub process_urls-IsStarted :
      (draws : ℕ → Draw) (dir : String) (index : ℕ) (urls : List String) (s : State)
      → cli.direct ≡ false
      → cli.list_formats ≡ false
      → ready_dir w.fs (chosen_dir cli.output config.output_dir) ≡ ok dir
      → ((n : ℕ) → (draws n).fault ≡ fine)
      → All (IsStarted dir) urls
      → ((process_urls w to_f64 cli config draws index urls s).0 ≡ ok tt)
        × (urls_of (process_urls w to_f64 cli config draws index urls s).1
            ≡ reversed_onto urls (urls_of s))
  unfolding process_urls reversed_onto
  process_urls-IsStarted draws dir index [] s by_ytdlp no_list ready no_fault h = (refl, refl)
  process_urls-IsStarted draws dir index (url ∷ urls) s by_ytdlp no_list ready no_fault h =
      let d = draws index in
      let one = process_url-IsStarted d dir url s by_ytdlp no_list ready (no_fault index) h.0 in
      let step = process_url w to_f64 cli config d url s in
      let rest = process_urls w to_f64 cli config draws (suc index) urls step.1 in
      let more =
        process_urls-IsStarted draws dir (suc index) urls step.1 by_ytdlp no_list ready no_fault
          h.1 in
      rw (or_stop-ok step rest one.0) (more.0, more.1 ∙ ap (reversed_onto urls) one.1)
