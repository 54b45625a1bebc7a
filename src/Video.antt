-- ===== src/Video.antt =====
-- src/downloader.rs: `VideoDownloader`. What a web server answers is a parameter, `Host`; an attempt
-- of a download may meet another one. The ceiling of a quotient of two `f64` is a parameter, and so
-- is the time that a download takes; writing to the disk fails as a stream does.
pub mod Ranges
pub mod Ceil
pub mod Segments
pub mod Whole
pub mod Retry
pub mod Recovers
pub mod Ignored
pub mod Resumed
pub mod Tests
use x_videos_dowloads.Prelude.{
  ℕ, zero, suc, ◌+◌, ◌-◌, ◌*◌, ◌%◌, ◌^◌, String, Bool, true, false, ◌&&◌, List, [], ◌∷◌, ◌++◌,
  Option, none, some, Result, ok, err, is_ok, ltb, ◌==◌, if◌then◌else◌, min, unwrap_or,
}
use x_videos_dowloads.Chunks.{Stream, receive}
use x_videos_dowloads.Media.{DownloadResult, succeeded}

pub record DownloaderConfig : Type 0 where
  pub connect_timeout : ℕ
  pub request_timeout : ℕ
  pub retry_count : ℕ
  pub retry_max_delay : ℕ
  pub chunk_size : ℕ
  pub user_agent : Option String
  pub proxy : Option String
  pub pool_max_idle_per_host : ℕ
  pub http2 : Bool
  pub tcp_keepalive : ℕ
  pub parallel_segments : ℕ

-- `DownloaderConfig::default`
abbrev pub default_config : DownloaderConfig
default_config = record {
  connect_timeout = 30;
  request_timeout = 600;
  retry_count = 5;
  retry_max_delay = 30;
  chunk_size = 1024 * 1024;
  user_agent = none;
  proxy = none;
  pool_max_idle_per_host = 10;
  http2 = true;
  tcp_keepalive = 60;
  parallel_segments = 4;
}

-- `VideoDownloader::with_user_agent`, `VideoDownloader::with_proxy`: the configuration is changed, but
-- not the client, which has been built from it.
abbrev pub set_user_agent : (user_agent : String) → DownloaderConfig → DownloaderConfig
set_user_agent user_agent config = record config { user_agent = some user_agent }

abbrev pub set_proxy : (proxy : String) → DownloaderConfig → DownloaderConfig
set_proxy proxy config = record config { proxy = some proxy }

-- A GET request: without a Range header, from a byte on, or from one byte to another.
pub data Asked : Type 0 where
  everything : Asked
  onwards : (start : ℕ) → Asked
  between : (start end : ℕ) → Asked

-- The answers to the first and to later HEAD and GET requests: whether the status is a success, and
-- the length that is announced, if it is a number, or the body.
pub record Host : Type 0 where
  pub head : ℕ → Result (Bool × Option ℕ)
  pub get : ℕ → Asked → Result (Bool × Stream)

-- `get_content_length`
abbrev pub get_content_length : Result (Bool × Option ℕ) → Result (Option ℕ)
get_content_length (err e) = err e
get_content_length (ok (true, length)) = ok length
get_content_length (ok (false, length)) = ok none

-- `download_segment`, of an answer: the file is created anew once the status is a success.
unfoldable pub download_segment : Result (Bool × Stream) → List ℕ → Result ℕ × List ℕ
unfolding receive
download_segment (err e) file = (err e, file)
download_segment (ok (false, stream)) file = (err "分段下载失败", file)
download_segment (ok (true, stream)) file = receive stream 0 []

-- The task of a segment: `left` tries, the first of them numbered `attempt`, and one more.
unfoldable pub fetch_segment : Host → (start end left attempt : ℕ) → List ℕ → Result ℕ × List ℕ
unfolding download_segment
fetch_segment host start end zero attempt file =
    download_segment (host.get attempt (between start end)) file
fetch_segment host start end (suc left) attempt file =
    let (result, after) = download_segment (host.get attempt (between start end)) file in
    let again = fetch_segment host start end left (suc attempt) after in
    if is_ok result then (result, after) else again

abbrev pub segment_end : (total_size segments chunk_size i : ℕ) → ℕ
segment_end total_size segments chunk_size i =
    if i == segments - 1 then total_size - 1 else suc i * chunk_size - 1

-- The tasks of the segments from `i` on, of which `rounds` are left, each with its file, which is
-- empty at first.
unfoldable pub fetch_segments :
    Host → (total_size segments chunk_size retry_count i rounds : ℕ) → List (Result ℕ × List ℕ)
unfolding fetch_segment
fetch_segments host total_size segments chunk_size retry_count i zero = []
fetch_segments host total_size segments chunk_size retry_count i (suc rounds) =
    fetch_segment host (i * chunk_size) (segment_end total_size segments chunk_size i) retry_count 0
      []
    ∷ fetch_segments host total_size segments chunk_size retry_count (suc i) rounds

unfoldable pub success_count : List (Result ℕ × List ℕ) → ℕ
success_count [] = 0
success_count (s ∷ ss) = if is_ok s.0 then suc (success_count ss) else success_count ss

-- The files of the segments one behind the other.
unfoldable pub merge_segments : List (Result ℕ × List ℕ) → List ℕ
merge_segments [] = []
merge_segments (s ∷ ss) = s.1 ++ merge_segments ss

-- What a download leaves: its result, and the output file, if there is one.
abbrev pub Left : Type 0
Left = Result DownloadResult × Option (List ℕ)

unfoldable pub merged :
    (output_path : String) (total_size : ℕ) → List (Result ℕ × List ℕ) → Option (List ℕ) → Left
unfolding success_count merge_segments
merged output_path total_size parts output =
    if success_count parts == 0
    then (err "所有分段下载都失败了", output)
    else (ok (succeeded output_path total_size 0), some (merge_segments parts))

-- The body of a download, written to the file: the bytes counted from `downloaded`.
abbrev pub written : (output_path : String) (elapsed : ℕ) → Result ℕ × List ℕ → Left
written output_path elapsed (ok downloaded, file) =
    (ok (succeeded output_path downloaded elapsed), some file)
written output_path elapsed (err e, file) = (err e, some file)

unfoldable pub save_body :
    (output_path : String) (elapsed : ℕ) → Result (Bool × Stream) → Option (List ℕ) → Left
unfolding receive
save_body output_path elapsed (err e) output = (err e, output)
save_body output_path elapsed (ok (false, stream)) output = (err "下载失败", output)
save_body output_path elapsed (ok (true, stream)) output =
    written output_path elapsed (receive stream 0 [])

-- `do_download`, whose own HEAD request is the second of an attempt.
unfoldable pub do_download : (output_path : String) (elapsed : ℕ) → Host → Option (List ℕ) → Left
unfolding save_body
do_download output_path elapsed host output = elim (get_content_length (host.head 1)) [
  | err e ↦ (err e, output)
  | ok length ↦ save_body output_path elapsed (host.get 0 everything) output
]

-- The file that `resume_download` writes to, if it can be opened.
abbrev pub open_file : (resume_from : ℕ) → Option (List ℕ) → Option (List ℕ)
open_file zero output = some []
open_file (suc n) output = output

unfoldable pub continue_body :
    (output_path : String) (elapsed resume_from : ℕ)
    → Result (Bool × Stream)
    → Option (List ℕ)
    → Left
unfolding receive
continue_body output_path elapsed resume_from (err e) output = (err e, output)
continue_body output_path elapsed resume_from (ok (false, stream)) output = (err "下载失败", output)
continue_body output_path elapsed resume_from (ok (true, stream)) output =
    elim (open_file resume_from output) [
      | none ↦ (err "No such file or directory", none)
      | some file ↦ written output_path elapsed (receive stream resume_from file)
    ]

abbrev pub asked_from : ℕ → Asked
asked_from zero = everything
asked_from (suc n) = onwards (suc n)

-- `resume_download`
unfoldable pub resume_download :
    (output_path : String) (elapsed : ℕ) → Host → (resume_from : ℕ) → Option (List ℕ) → Left
unfolding continue_body
resume_download output_path elapsed host resume_from output =
    elim (get_content_length (host.head 0)) [
      | err e ↦ (err e, output)
      | ok length ↦
          continue_body output_path elapsed resume_from (host.get 0 (asked_from resume_from)) output
    ]

module _ (ceil_div : ℕ → ℕ → ℕ) (config : DownloaderConfig) (output_path : String)
    (elapsed : ℕ) where
  -- `parallel_download`, with at least one segment.
  unfoldable pub parallel_download : Host → (total_size : ℕ) → Option (List ℕ) → Left
  unfolding fetch_segments merged
  parallel_download host total_size output =
      let segments = config.parallel_segments in
      merged output_path total_size
        (fetch_segments host total_size segments (ceil_div total_size segments) config.retry_count 0
          segments)
        output

  -- What follows a parallel download: a plain one where it failed.
  abbrev pub or_plain : Host → Left → Left
  or_plain host (ok result, output) = (ok result, output)
  or_plain host (err e, output) = do_download output_path elapsed host output

  abbrev pub is_large : ℕ → Bool
  is_large size = ltb 0 config.parallel_segments && ltb (10 * 1024 * 1024) size

  -- An attempt whose HEAD request has been answered.
  unfoldable pub try_download : Host → Option ℕ → Option (List ℕ) → Left
  unfolding parallel_download do_download
  try_download host none output = do_download output_path elapsed host output
  try_download host (some size) output =
      if is_large size
      then or_plain host (parallel_download host size output)
      else do_download output_path elapsed host output

  -- The seconds that are waited before an attempt; the power wraps on a `u64`.
  abbrev pub delay_secs : (attempt : ℕ) → ℕ
  delay_secs zero = 0
  delay_secs (suc n) = min (2 ^ n % 2 ^ 64) config.retry_max_delay

  -- The attempts from `attempt` on, of which `left` remain: what is left at the end, and the seconds
  -- waited. `web` is the host that an attempt meets.
  unfoldable pub attempts : (web : ℕ → Host) (left attempt : ℕ) → Option (List ℕ) → Left × ℕ
  unfolding try_download
  attempts web zero attempt output = ((err "下载失败，已重试", output), 0)
  attempts web (suc left) attempt output = elim (get_content_length ((web attempt).head 0)) [
    | err e ↦ ((err e, output), delay_secs attempt)
    | ok size ↦
        let (result, after) = try_download (web attempt) size output in
        if is_ok result then ((result, after), delay_secs attempt) else (
          (attempts web left (suc attempt) after).0,
          delay_secs attempt + (attempts web left (suc attempt) after).1,
        )
  ]

  -- `download`
  unfoldable pub download : (web : ℕ → Host) → Option (List ℕ) → Left × ℕ
  unfolding attempts
  download web output = attempts web config.retry_count 0 output
