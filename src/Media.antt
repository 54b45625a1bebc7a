-- ===== src/Media.antt =====
-- src/types.rs: what the downloaders and the interfaces share. An `f64` is its bit pattern; the
-- arithmetic on it is a parameter, and a path is its text.
pub mod Names
pub mod Units
pub mod Safe
pub mod Tests
use x_videos_dowloads.Prelude.{
  ℕ, ◌-◌, String, Bool, true, false, List, [], Option, none, some, ltb, if◌then◌else◌,
}
use x_videos_dowloads.Float.{f64_zero, f64_lt}

-- `DEFAULT_USER_AGENT`
abbrev pub default_user_agent : String
default_user_agent =
    "Mozilla/5.0 (Windows NT 10.0; Win64; x64) AppleWebKit/537.36 (KHTML, like Gecko) Chrome/131.0.0.0 Safari/537.36"

pub record VideoFormat : Type 0 where
  pub format_id : String
  pub ext : String
  pub resolution : Option String
  pub filesize : Option ℕ
  pub bitrate : Option ℕ
  pub codec : Option String
  pub audio_only : Bool
  pub format_note : Option String

pub record VideoInfo : Type 0 where
  pub title : String
  pub description : Option String
  pub uploader : Option String
  pub duration : Option ℕ
  pub url : String
  pub thumbnail : Option String
  pub formats : List VideoFormat
  pub created_at : Option String

-- `VideoInfo::new`, at a time in its text form.
abbrev pub new_video_info : (now title url : String) → VideoInfo
new_video_info now title url = record {
  title = title;
  description = none;
  uploader = none;
  duration = none;
  url = url;
  thumbnail = none;
  formats = [];
  created_at = some now;
}

pub record DownloadRequest : Type 0 where
  pub url : String
  pub output_path : String
  pub format_id : Option String
  pub audio_only : Bool
  pub download_subtitles : Bool
  pub user_agent : Option String
  pub cookie_file : Option String

-- `DownloadRequest::new`
abbrev pub new_request : (url output_path : String) → DownloadRequest
new_request url output_path = record {
  url = url;
  output_path = output_path;
  format_id = none;
  audio_only = false;
  download_subtitles = false;
  user_agent = none;
  cookie_file = none;
}

-- The setters of a request.
abbrev pub with_format_id : (format_id : String) → DownloadRequest → DownloadRequest
with_format_id format_id r = record r { format_id = some format_id }

abbrev pub only_audio : DownloadRequest → DownloadRequest
only_audio r = record r { audio_only = true }

abbrev pub with_subtitles : DownloadRequest → DownloadRequest
with_subtitles r = record r { download_subtitles = true }

abbrev pub with_agent : (user_agent : String) → DownloadRequest → DownloadRequest
with_agent user_agent r = record r { user_agent = some user_agent }

abbrev pub with_cookies : (cookie_file : String) → DownloadRequest → DownloadRequest
with_cookies cookie_file r = record r { cookie_file = some cookie_file }

pub record DownloadResult : Type 0 where
  pub success : Bool
  pub output_path : String
  pub file_size : ℕ
  pub duration_secs : ℕ
  pub error_message : Option String

-- `DownloadResult::success`, `DownloadResult::failure`
abbrev pub succeeded : (output_path : String) (file_size duration_secs : ℕ) → DownloadResult
succeeded output_path file_size duration_secs = record {
  success = true;
  output_path = output_path;
  file_size = file_size;
  duration_secs = duration_secs;
  error_message = none;
}

abbrev pub failure : (output_path error : String) → DownloadResult
failure output_path error = record {
  success = false;
  output_path = output_path;
  file_size = 0;
  duration_secs = f64_zero;
  error_message = some error;
}

pub data DownloadStatus : Type 0 where
  pending : DownloadStatus
  preparing : DownloadStatus
  downloading : DownloadStatus
  completed : DownloadStatus
  paused : DownloadStatus
  failed : DownloadStatus
  cancelled : DownloadStatus

-- `DownloadStatus::is_terminal`, `DownloadStatus::is_active`
abbrev pub is_terminal : DownloadStatus → Bool
is_terminal completed = true
is_terminal failed = true
is_terminal cancelled = true
is_terminal _ = false

abbrev pub is_active : DownloadStatus → Bool
is_active downloading = true
is_active preparing = true
is_active _ = false

pub record DownloadProgress : Type 0 where
  pub task_id : String
  pub bytes_downloaded : ℕ
  pub total_bytes : ℕ
  pub percent : ℕ
  pub speed : ℕ
  pub eta_secs : Option ℕ
  pub status : DownloadStatus

-- `DownloadProgress::new`
abbrev pub new_progress : (task_id : String) → DownloadProgress
new_progress task_id = record {
  task_id = task_id;
  bytes_downloaded = 0;
  total_bytes = 0;
  percent = f64_zero;
  speed = f64_zero;
  eta_secs = none;
  status = pending;
}

-- `DownloadProgress::with_total_bytes`, `DownloadProgress::with_status`
abbrev pub with_total_bytes : (total : ℕ) → DownloadProgress → DownloadProgress
with_total_bytes total p = record p { total_bytes = total }

abbrev pub with_status : DownloadStatus → DownloadProgress → DownloadProgress
with_status status p = record p { status = status }

-- The share `a as f64 / b as f64`, at most 1, and the time `a as f64 / speed`.
pub record Arithmetic : Type 0 where
  pub share : (a b : ℕ) → ℕ
  pub time : (a speed : ℕ) → ℕ

-- `DownloadProgress::update`
unfoldable pub update :
    Arithmetic → (bytes_downloaded speed : ℕ) → DownloadProgress → DownloadProgress
update arithmetic bytes_downloaded speed p = record p {
  bytes_downloaded = bytes_downloaded;
  speed = speed;
  percent =
      if ltb 0 p.total_bytes then arithmetic.share bytes_downloaded p.total_bytes else p.percent;
  eta_secs =
      if f64_lt f64_zero speed
      then some (arithmetic.time (p.total_bytes - bytes_downloaded) speed)
      else none;
}
