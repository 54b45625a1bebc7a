-- ===== src/Cli/Tests.antt =====
-- src/main.rs on a machine with yt-dlp that ends with an error for every download.
use x_videos_dowloads.Prelude.{ℕ, ◌≡◌, refl, String, true, false, [], ◌∷◌, none, some, ok, err}
use x_videos_dowloads.Prelude.Text.{split_at}
use x_videos_dowloads.Config.{AppConfig, Directories, default_config}
use x_videos_dowloads.History.{State, fine}
use x_videos_dowloads.History.Saved.{started}
use x_videos_dowloads.Media.Tests.{latin}
use x_videos_dowloads.Video.Tests.{away}
use x_videos_dowloads.YtDlp.Json.{object, member, no_members, text}
use x_videos_dowloads.YtDlp.Info.{printed, get_video_info, read_info}
use x_videos_dowloads.Cli.{Cli}
use x_videos_dowloads.Cli.Paths.{FileSystem, chosen_dir, ready_dir, validate_output_dir}
use x_videos_dowloads.Cli.Download.{World}
use x_videos_dowloads.Cli.Loop.{Draw, process_urls, run}
use x_videos_dowloads.Cli.Commands.{main, history_commands, config_exists}
use x_videos_dowloads.Cli.Outcome.{urls_of, reversed_onto, IsStarted, process_urls-IsStarted}
use x_videos_dowloads.Cli.Settings.{run-output_dir}

-- Every directory is there, and every path is absolute.
abbrev disk_of_user : FileSystem
disk_of_user = record {
  is_absolute = λ path. true;
  canonicalize = λ path. some path;
  exists = λ path. true;
  is_dir = λ path. true;
  parent = λ path. none;
  creates = λ path. true;
}

abbrev dirs : Directories
dirs = record { video_dir = some "/videos"; config_path = none }

abbrev machine : World
machine = record {
  fs = disk_of_user;
  float = some;
  dirs = dirs;
  is_alphanumeric = latin;
  cookie_exists = λ path. false;
  draw = 0;
  now = "now";
  dumps = λ args. printed (some (object (member "title" (text "Video") no_members)));
  downloads = λ args. some false;
  web = λ url attempt. away;
  ceil_div = λ a b. a;
  elapsed = 0;
  stored = λ path. none;
}

abbrev plain : Cli
plain = record {
  url = none;
  batch = none;
  output = ".";
  format = none;
  audio_only = false;
  subtitles = false;
  filename = none;
  list_formats = false;
  proxy = none;
  cookies = none;
  user_agent = none;
  verbose = false;
  direct = false;
  gui = false;
  create_team = none;
  join_team = none;
  server_addr = "ws://localhost:9000";
  device_name = "MyDevice";
  init_config = false;
  history = false;
  bookmark = none;
  bookmarks = false;
  clear_history = false;
  search = none;
  start_server = false;
  server_port = 9000;
}

abbrev same : ℕ → ℕ
same n = n

abbrev draws : ℕ → Draw
draws n = record { id = n; now = n; fault = fine }

abbrev empty : State
empty = started some (record { history_file = none; bookmark_file = none })

ready : ready_dir disk_of_user (chosen_dir "." "/videos") ≡ ok "/videos"
unfolding ready_dir validate_output_dir split_at
ready = refl

looked_up : (url : String) → IsStarted machine same plain (default_config dirs) "/videos" url
unfolding get_video_info
looked_up url = record {
  info = read_info "now" url (object (member "title" (text "Video") no_members));
  success = false;
  looked_up = refl;
  started = refl;
}

process_urls-IsStarted_example :
    ((process_urls machine same plain (default_config dirs) draws 0 ("a" ∷ "b" ∷ []) empty).0
      ≡ ok tt)
    × (urls_of
          (process_urls machine same plain (default_config dirs) draws 0 ("a" ∷ "b" ∷ []) empty).1
        ≡ reversed_onto ("a" ∷ "b" ∷ []) (urls_of empty))
process_urls-IsStarted_example =
    process_urls-IsStarted machine same plain (default_config dirs) draws "/videos" 0
      ("a" ∷ "b" ∷ []) empty refl refl ready (λ n. refl) (looked_up "a", (looked_up "b", tt))

-- The configuration of a user who has set a proxy.
abbrev with_proxy : AppConfig
with_proxy = record (default_config dirs) { proxy = some "socks5://localhost:1080" }

run-output_dir_example :
    run machine same
      (record plain { url = some "a" })
      with_proxy
      true
      (λ path. none)
      draws
      (λ dir. empty.disk)
    ≡ run machine same
        (record plain { url = some "a" })
        (default_config dirs)
        true
        (λ path. none)
        draws
        (λ dir. empty.disk)
run-output_dir_example =
    run-output_dir machine same (record plain { url = some "a" }) with_proxy (default_config dirs)
      refl true (λ path. none) draws (λ dir. empty.disk)

-- A file of the configuration that cannot be read does not hinder its initialisation.
initialised :
    main (record plain { init_config = true; history = true }) (ok none) (err "TOML")
    ≡ config_exists
unfolding main
initialised = refl

commands_first :
    main
      (record plain { url = some "a"; clear_history = true })
      (ok none)
      (ok (default_config dirs))
    ≡ history_commands
unfolding main
commands_first = refl
