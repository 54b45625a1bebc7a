-- ===== src/YtDlp/Tests.antt =====
-- src/yt_dlp.rs on concrete settings and output.
use x_videos_dowloads.Prelude.{◌≡◌, refl, false, [], ◌∷◌, some, map}
use x_videos_dowloads.Media.{VideoFormat}
use x_videos_dowloads.YtDlp.{
  default_anti_bot, with_proxy, with_user_agent, download_options, build_download_args,
}
use x_videos_dowloads.YtDlp.Json.{object, member, no_members, text, number}
use x_videos_dowloads.YtDlp.Info.{read_formats}

-- The URL is the last argument, with nothing between it and the options.
download_command :
    build_download_args
      (λ file. false)
      0
      (with_proxy (some "p") (with_user_agent (some "u") default_anti_bot))
      "--exec=id"
      "/v/a.mp4"
      (some "best")
      false
      false
    ≡ "--no-warnings" ∷ "--newline" ∷ "-o" ∷ "/v/a.mp4" ∷ "--concurrent-fragments" ∷ "4"
      ∷ "--fragment-retries" ∷ "10" ∷ "--retries" ∷ "10" ∷ "--socket-timeout" ∷ "60"
      ∷ "--no-abort-on-error" ∷ "-f" ∷ "best" ∷ "--user-agent" ∷ "u" ∷ "--proxy" ∷ "p" ∷ "--exec=id"
      ∷ []
unfolding build_download_args download_options
download_command = refl

-- A format without an identifier is left out.
identified :
    map
      (λ (f : VideoFormat). f.format_id)
      (read_formats (
        object (member "format_id" (text "137") (member "filesize" (number 9) no_members))
        ∷ object (member "ext" (text "mp4") no_members)
        ∷ []))
    ≡ "137" ∷ []
unfolding read_formats
identified = refl
