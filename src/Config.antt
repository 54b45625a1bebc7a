-- ===== src/Config.antt =====
-- src/config.rs: `AppConfig`, and its file. The directories of the user are parameters; the TOML of a
-- configuration is the configuration, with a field `none` where it is left out.
pub mod File
pub mod Tests
use x_videos_dowloads.Prelude.{
  ℕ, String, Bool, true, false, Option, none, some, Result, ok, err, unwrap_or,
}

pub record AppConfig : Type 0 where
  pub output_dir : String
  pub proxy : Option String
  pub user_agent : String
  pub cookie_file : Option String
  pub format : Option String
  pub subtitles : Bool
  pub audio_only : Bool
  pub concurrent_downloads : ℕ
  pub max_retries : ℕ
  pub server_addr : String
  pub device_name : String
  pub log_level : String

-- The directory for videos of the user, and the file of the configuration, where there are such.
pub record Directories : Type 0 where
  pub video_dir : Option String
  pub config_path : Option String

abbrev pub default_output_dir : Directories → String
default_output_dir dirs = unwrap_or dirs.video_dir "."

abbrev pub default_user_agent : String
default_user_agent =
    "Mozilla/5.0 (Windows NT 10.0; Win64; x64) AppleWebKit/537.36 (KHTML, like Gecko) Chrome/120.0.0.0 Safari/537.36"

-- `AppConfig::default`
abbrev pub default_config : Directories → AppConfig
default_config dirs = record {
  output_dir = default_output_dir dirs;
  proxy = none;
  user_agent = default_user_agent;
  cookie_file = none;
  format = none;
  subtitles = false;
  audio_only = false;
  concurrent_downloads = 3;
  max_retries = 5;
  server_addr = "ws://localhost:9000";
  device_name = "MyDevice";
  log_level = "info";
}

-- The keys that a file sets.
pub record Keys : Type 0 where
  pub output_dir : Option String
  pub proxy : Option String
  pub user_agent : Option String
  pub cookie_file : Option String
  pub format : Option String
  pub subtitles : Option Bool
  pub audio_only : Option Bool
  pub concurrent_downloads : Option ℕ
  pub max_retries : Option ℕ
  pub server_addr : Option String
  pub device_name : Option String
  pub log_level : Option String

-- What a file holds: keys of the right types, or some other text.
pub data Stored : Type 0 where
  keys : Keys → Stored
  other : String → Stored

-- The value of a key, with the default of its `serde` attribute.
abbrev pub read_keys : Directories → Keys → AppConfig
read_keys dirs k = record {
  output_dir = unwrap_or k.output_dir (default_output_dir dirs);
  proxy = k.proxy;
  user_agent = unwrap_or k.user_agent default_user_agent;
  cookie_file = k.cookie_file;
  format = k.format;
  subtitles = unwrap_or k.subtitles false;
  audio_only = unwrap_or k.audio_only false;
  concurrent_downloads = unwrap_or k.concurrent_downloads 3;
  max_retries = unwrap_or k.max_retries 5;
  server_addr = unwrap_or k.server_addr "ws://localhost:9000";
  device_name = unwrap_or k.device_name "MyDevice";
  log_level = unwrap_or k.log_level "info";
}

-- `toml::to_string_pretty`: every key but those that are `None`.
abbrev pub to_keys : AppConfig → Keys
to_keys c = record {
  output_dir = some c.output_dir;
  proxy = c.proxy;
  user_agent = some c.user_agent;
  cookie_file = c.cookie_file;
  format = c.format;
  subtitles = some c.subtitles;
  audio_only = some c.audio_only;
  concurrent_downloads = some c.concurrent_downloads;
  max_retries = some c.max_retries;
  server_addr = some c.server_addr;
  device_name = some c.device_name;
  log_level = some c.log_level;
}

abbrev pub parse : Directories → Option Stored → Result AppConfig
parse dirs none = ok (default_config dirs)
parse dirs (some (keys k)) = ok (read_keys dirs k)
parse dirs (some (other text)) = err "TOML parse error"

-- `AppConfig::load`, of the file at the path, if there are both.
unfoldable pub load : Directories → (file : Option Stored) → Result AppConfig
load dirs file = elim dirs.config_path [
  | none ↦ ok (default_config dirs)
  | some path ↦ parse dirs file
]

-- How a write of the file ends: it is done, it fails before the file is touched, or it fails after the
-- file was cut off and leaves a part of the text, which may be some of the keys, or no TOML.
pub data Write : Type 0 where
  done : Write
  unwritten : Write
  cut_off : (left : Stored) → Write

-- `fs::write` of a configuration: the result, and the file.
abbrev pub write : Write → AppConfig → (file : Option Stored) → Result (Unit {0}) × Option Stored
write done c file = (ok tt, some (keys (to_keys c)))
write unwritten c file = (err "io", file)
write (cut_off left) c file = (err "io", some left)

-- `AppConfig::save`: the result and the file.
unfoldable pub save :
    Directories → Write → AppConfig → (file : Option Stored) → Result (Unit {0}) × Option Stored
save dirs w c file = elim dirs.config_path [
  | none ↦ (err "无法确定配置文件路径", file)
  | some path ↦ write w c file
]

abbrev pub told_path : (path : String) → Result (Unit {0}) → Result (Option String)
told_path path (ok u) = ok (some path)
told_path path (err e) = err e

-- The file where there is none yet.
abbrev pub create :
    Directories
    → (path : String) → Write
    → (file : Option Stored) → Result (Option String) × Option Stored
create dirs path w (some stored) = (ok none, some stored)
create dirs path w none =
    let (result, file) = write w (default_config dirs) none in (told_path path result, file)

-- `AppConfig::init_config_file`
unfoldable pub init_config_file :
    Directories → Write → (file : Option Stored) → Result (Option String) × Option Stored
init_config_file dirs w file = elim dirs.config_path [
  | none ↦ (err "无法确定配置文件路径", file)
  | some path ↦ create dirs path w file
]
