-- ===== src/Cli.antt =====
-- src/main.rs: what the program does for its arguments.
pub mod Paths
pub mod Download
pub mod Loop
pub mod Commands
pub mod Outcome
pub mod Settings
pub mod Tests
use x_videos_dowloads.Prelude.{ℕ, String, Bool, Option}

-- `Cli`
pub record Cli : Type 0 where
  pub url : Option String
  pub batch : Option String
  pub output : String
  pub format : Option String
  pub audio_only : Bool
  pub subtitles : Bool
  pub filename : Option String
  pub list_formats : Bool
  pub proxy : Option String
  pub cookies : Option String
  pub user_agent : Option String
  pub verbose : Bool
  pub direct : Bool
  pub gui : Bool
  pub create_team : Option String
  pub join_team : Option String
  pub server_addr : String
  pub device_name : String
  pub init_config : Bool
  pub history : Bool
  pub bookmark : Option String
  pub bookmarks : Bool
  pub clear_history : Bool
  pub search : Option String
  pub start_server : Bool
  pub server_port : ℕ
