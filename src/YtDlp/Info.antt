-- ===== src/YtDlp/Info.antt =====
-- src/yt_dlp.rs: what `get_video_info` reads.
use x_videos_dowloads.Prelude.{
  ℕ, String, Bool, false, ◌||◌, List, [], ◌∷◌, Option, none, some, unwrap_or, str_eq, Result, ok,
  err,
}
use x_videos_dowloads.Media.{VideoInfo, VideoFormat, new_video_info}
use x_videos_dowloads.YtDlp.Json.{Json, as_str, as_u64, as_array, at_key}

abbrev pub or_else : Option ℕ → Option ℕ → Option ℕ
or_else (some a) b = some a
or_else none b = b

abbrev pub is_none_text : Option String → Bool
is_none_text none = false
is_none_text (some s) = str_eq s "none"

-- A format with its identifier.
abbrev pub read_format : (format_id : String) → Json → VideoFormat
read_format format_id fmt =
    let ext = unwrap_or (as_str (at_key "ext" fmt)) "unknown" in
    record {
      format_id = format_id;
      ext = ext;
      resolution = as_str (at_key "resolution" fmt);
      filesize = or_else (as_u64 (at_key "filesize" fmt)) (as_u64 (at_key "filesize_approx" fmt));
      bitrate = as_u64 (at_key "tbr" fmt);
      codec = none;
      audio_only =
          str_eq ext "m4a"
          || (str_eq ext "mp3"
              || (str_eq ext "webm" || is_none_text (as_str (at_key "vcodec" fmt))));
      format_note = as_str (at_key "format_note" fmt);
    }

abbrev pub add_format : Option String → Json → List VideoFormat → List VideoFormat
add_format none fmt formats = formats
add_format (some format_id) fmt formats = read_format format_id fmt ∷ formats

-- The formats that have an identifier, in their order.
unfoldable pub read_formats : List Json → List VideoFormat
read_formats [] = []
read_formats (fmt ∷ fmts) = add_format (as_str (at_key "format_id" fmt)) fmt (read_formats fmts)

unfoldable pub read_info : (now url : String) → Json → VideoInfo
unfolding read_formats
read_info now url json =
    record (new_video_info now (unwrap_or (as_str (at_key "title" json)) "未知标题") url) {
      description = as_str (at_key "description" json);
      uploader = as_str (at_key "uploader" json);
      duration = as_u64 (at_key "duration" json);
      thumbnail = as_str (at_key "thumbnail" json);
      formats = read_formats (as_array (at_key "formats" json));
    }

-- What the process ends with: it cannot be started, its status is an error, or it prints something,
-- which is JSON or not.
pub data Output : Type 0 where
  not_started : Output
  unsuccessful : (stderr : String) → Output
  printed : Option Json → Output

-- `get_video_info`
unfoldable pub get_video_info : (now url : String) → Output → Result VideoInfo
unfolding read_info
get_video_info now url not_started = err "io"
get_video_info now url (unsuccessful stderr) = err "获取视频信息失败"
get_video_info now url (printed none) = err "json"
get_video_info now url (printed (some json)) = ok (read_info now url json)
