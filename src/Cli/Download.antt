-- ===== src/Cli/Download.antt =====
-- src/main.rs: the download of one URL, by yt-dlp or directly. What processes and hosts do is a
-- parameter, `World`.
use Prim.Native.Char.{Char}
use Prim.Native.String.{◌++◌ as str_append}
use x_videos_dowloads.Prelude.{
  ℕ, String, Bool, List, Option, none, some, Result, ok, err, unwrap_or, if◌then◌else◌, contains,
}
use x_videos_dowloads.Config.{AppConfig, Directories, default_output_dir}
use x_videos_dowloads.Media.{DownloadResult, VideoInfo}
use x_videos_dowloads.Media.Names.{sanitize_filename}
use x_videos_dowloads.Video.{DownloaderConfig, Host, download}
use x_videos_dowloads.Video as Video
use x_videos_dowloads.YtDlp.{
  AntiBotConfig, default_anti_bot, with_user_agent, with_cookie_file, with_proxy, info_args,
  build_download_args,
}
use x_videos_dowloads.YtDlp.Info.{Output, get_video_info}
use x_videos_dowloads.Cli.{Cli}
use x_videos_dowloads.Cli.Paths.{FileSystem, chosen_dir, join, ready_dir}

pub record World : Type 0 where
  pub fs : FileSystem
  pub dirs : Directories
  pub is_alphanumeric : Char → Bool
  pub cookie_exists : String → Bool
  -- The place drawn in the list of browsers, and the time in its text form.
  pub draw : ℕ
  pub now : String
  -- What yt-dlp does for its arguments: its output for a URL, and, of a download, whether it is
  -- started and then succeeds.
  pub dumps : List String → Output
  pub downloads : List String → Option Bool
  -- The hosts of a URL, and the file that stands at a path, for a direct download.
  pub web : String → ℕ → Host
  pub ceil_div : ℕ → ℕ → ℕ
  pub elapsed : ℕ
  pub stored : String → Option (List ℕ)
  -- What is read for a duration that was written to the history, unless it was written as `null`.
  pub float : ℕ → Option ℕ

-- The settings that both calls of yt-dlp take from the arguments.
abbrev pub anti_bot : Cli → AntiBotConfig
anti_bot cli =
    with_proxy cli.proxy
      (with_cookie_file cli.cookies (with_user_agent cli.user_agent default_anti_bot))

-- `get_video_info`
abbrev pub video_info : World → Cli → (url : String) → Result VideoInfo
video_info w cli url =
    get_video_info w.now url (w.dumps (info_args w.cookie_exists w.draw (anti_bot cli) url))

-- The format that is asked for, if any.
abbrev pub chosen_format : Cli → (url : String) → Option String
chosen_format cli url = elim cli.format [
  | some f ↦ some f
  | none ↦
      if cli.audio_only
      then some "bestaudio"
      else if contains url "video.twimg.com"
      then some "best"
      else none
]

abbrev pub output_name : World → Cli → VideoInfo → String
output_name w cli info =
    str_append (sanitize_filename w.is_alphanumeric (unwrap_or cli.filename info.title)) ".%(ext)s"

-- The command of a download into a directory.
abbrev pub download_command : World → Cli → VideoInfo → (dir : String) → List String
download_command w cli info dir =
    build_download_args w.cookie_exists w.draw (anti_bot cli) info.url
      (join dir (output_name w cli info)) (chosen_format cli info.url) cli.audio_only cli.subtitles

-- The status of the process is only printed.
abbrev pub after_process : Option Bool → Result (Unit {0})
after_process none = err "io"
after_process (some success) = ok tt

-- `download_with_ytdlp`
unfoldable pub download_with_ytdlp : World → Cli → AppConfig → VideoInfo → Result (Unit {0})
download_with_ytdlp w cli config info =
    elim (ready_dir w.fs (chosen_dir cli.output config.output_dir)) [
      | err e ↦ err e
      | ok dir ↦ after_process (w.downloads (download_command w cli info dir))
    ]

abbrev pub direct_config : Cli → DownloaderConfig
direct_config cli = record Video.default_config { user_agent = cli.user_agent; proxy = cli.proxy }

abbrev pub direct_name : World → Option String → String
direct_name w none = "video.mp4"
direct_name w (some name) = sanitize_filename w.is_alphanumeric name

-- `download_direct`; the client is taken to be built.
unfoldable pub download_direct : World → Cli → (url : String) → Result DownloadResult
download_direct w cli url =
    elim (ready_dir w.fs (chosen_dir cli.output (default_output_dir w.dirs))) [
      | err e ↦ err e
      | ok dir ↦
          let path = join dir (direct_name w cli.filename) in
          (download w.ceil_div (direct_config cli) path w.elapsed (w.web url) (w.stored path)).0.0
    ]
