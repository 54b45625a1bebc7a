-- ===== src/Cli/Loop.antt =====
-- src/main.rs: `run`, the downloads of all URLs and what is written to the history. Each entry of the
-- history draws an identifier and a time, and its save meets a fault or none.
use x_videos_dowloads.Prelude.{
  ℕ, suc, String, Bool, not, ◌&&◌, List, [], ◌∷◌, map, retain, Option, none, some, Result, ok, err,
  if◌then◌else◌, is_empty,
}
use x_videos_dowloads.Files.Cors.{trim}
use x_videos_dowloads.Config.{AppConfig}
use x_videos_dowloads.Media.{DownloadResult, VideoInfo}
use x_videos_dowloads.History.{HistoryEntry, Disk, Fault, State, add_entry, load}
use x_videos_dowloads.Cli.{Cli}
use x_videos_dowloads.Cli.Download.{World, video_info, download_with_ytdlp, download_direct}
use text.Mathlib.Text.{starts_with}

-- What a save of the history draws: the identifier and the time of the entry, and its fault.
pub record Draw : Type 0 where
  pub id : ℕ
  pub now : ℕ
  pub fault : Fault

-- The lines of a batch file that name a URL.
abbrev pub batch_urls : (lines : List String) → List String
batch_urls lines = retain (λ s. not (is_empty s) && not (starts_with s "#")) (map trim lines)

-- `duration as f64`
abbrev pub optional_f64 : (to_f64 : ℕ → ℕ) → Option ℕ → Option ℕ
optional_f64 to_f64 none = none
optional_f64 to_f64 (some n) = some (to_f64 n)

-- The entry of a URL that yt-dlp was called for.
abbrev pub ytdlp_entry : (to_f64 : ℕ → ℕ) → Draw → (url : String) → VideoInfo → HistoryEntry
ytdlp_entry to_f64 d url info = record {
  id = d.id;
  url = url;
  title = some info.title;
  file_path = none;
  file_size = none;
  downloaded_at = d.now;
  duration_secs = optional_f64 to_f64 info.duration;
}

abbrev pub direct_entry : Draw → (url : String) → DownloadResult → HistoryEntry
direct_entry d url result = record {
  id = d.id;
  url = url;
  title = none;
  file_path = some result.output_path;
  file_size = some result.file_size;
  downloaded_at = d.now;
  duration_secs = none;
}

-- What follows a direct download.
abbrev pub record_direct :
    Draw → (url : String) → Result DownloadResult → State → Result (Unit {0}) × State
record_direct d url (err e) s = (err e, s)
record_direct d url (ok result) s =
    if result.success then add_entry d.fault (direct_entry d url result) s else (ok tt, s)

-- What follows a call of yt-dlp.
abbrev pub record_ytdlp :
    (to_f64 : ℕ → ℕ)
    → Draw
    → (url : String) → VideoInfo
    → Result (Unit {0})
    → State
    → Result (Unit {0}) × State
record_ytdlp to_f64 d url info (err e) s = (err e, s)
record_ytdlp to_f64 d url info (ok u) s = add_entry d.fault (ytdlp_entry to_f64 d url info) s

-- The URLs that are asked for; the lines of the batch file are read where it can be.
abbrev pub asked_urls : Cli → (read : String → Option (List String)) → Result (List String)
asked_urls cli read = elim cli.url [
  | some url ↦ ok (url ∷ [])
  | none ↦ elim cli.batch [
    | none ↦ err "请提供视频 URL 或使用 -b/--batch 指定批量文件"
    | some file ↦ elim (read file) [ none ↦ err "io" | some lines ↦ ok (batch_urls lines) ]
  ]
]

-- An error ends the loop.
abbrev pub or_stop : (step rest : Result (Unit {0}) × State) → Result (Unit {0}) × State
or_stop (err e, s) rest = (err e, s)
or_stop (ok u, s) rest = rest

module _ (w : World) (to_f64 : ℕ → ℕ) (cli : Cli) (config : AppConfig) where
  -- A URL whose video has been looked up.
  unfoldable pub with_info :
      Draw → (url : String) → Result VideoInfo → State → Result (Unit {0}) × State
  with_info d url (err e) s = (err e, s)
  with_info d url (ok info) s =
      if cli.list_formats
      then (ok tt, s)
      else record_ytdlp to_f64 d url info (download_with_ytdlp w cli config info) s

  unfoldable pub process_url : Draw → (url : String) → State → Result (Unit {0}) × State
  unfolding with_info
  process_url d url s =
      if cli.direct
      then if cli.list_formats
        then (ok tt, s)
        else record_direct d url (download_direct w cli url) s
      else with_info d url (video_info w cli url) s

  -- The loop; the first error ends it. `draws` gives what the save for a URL draws.
  unfoldable pub process_urls :
      (draws : ℕ → Draw) (index : ℕ) → List String → State → Result (Unit {0}) × State
  unfolding process_url
  process_urls draws index [] s = (ok tt, s)
  process_urls draws index (url ∷ urls) s =
      let step = process_url (draws index) url s in
      or_stop step (process_urls draws (suc index) urls step.1)

  abbrev pub run_urls :
      (draws : ℕ → Draw) → Result (List String) → State → Result (Unit {0}) × State
  run_urls draws (err e) s = (err e, s)
  run_urls draws (ok urls) s = process_urls draws 0 urls s

  -- `run`, once the files of the history are found.
  unfoldable pub run_on :
      (available : Bool) (read : String → Option (List String)) (draws : ℕ → Draw) (disk : Disk)
      → Result (Unit {0}) × State
  unfolding process_urls
  run_on available read draws disk =
      let s : State = record { history = load w.float disk; disk = disk } in
      if available then run_urls draws (asked_urls cli read) s else (err "未找到 yt-dlp", s)

  -- `run`: the files of the history stand in the output directory of the configuration.
  unfoldable pub run :
      (available : Bool) (read : String → Option (List String)) (draws : ℕ → Draw)
      (disks : String → Disk)
      → Result (Unit {0}) × State
  unfolding run_on
  run available read draws disks = run_on available read draws (disks config.output_dir)
