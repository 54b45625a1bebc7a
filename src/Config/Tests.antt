-- ===== src/Config/Tests.antt =====
-- src/config.rs on a user with a directory for configurations.
use x_videos_dowloads.Prelude.{◌≡◌, refl, some, ok, err}
use x_videos_dowloads.Config.{AppConfig, Directories, done, other, default_config, load, save}
use x_videos_dowloads.Config.File.{load-save}

abbrev dirs : Directories
dirs = record { video_dir = some "/home/a/Videos"; config_path = some "/home/a/config.toml" }

abbrev chosen : AppConfig
chosen = record (default_config dirs) { max_retries = 9; proxy = some "socks5://localhost:1080" }

load-save_example : load dirs (save dirs done chosen (some (other "broken"))).1 ≡ ok chosen
load-save_example = load-save dirs "/home/a/config.toml" chosen (some (other "broken")) refl

-- A file that does not parse is an error, not the default.
broken : load dirs (some (other "broken")) ≡ err "TOML parse error"
unfolding load
broken = refl
