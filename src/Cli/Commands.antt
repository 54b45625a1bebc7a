-- ===== src/Cli/Commands.antt =====
-- src/main.rs: which part of the program runs, and the commands on the history.
use x_videos_dowloads.Prelude.{
  ℕ, String, Bool, ◌||◌, List, Option, none, some, Result, ok, err, is_some, if◌then◌else◌,
}
use x_videos_dowloads.Config.{AppConfig}
use x_videos_dowloads.History.{
  HistoryEntry, BookmarkEntry, State, clear, add_bookmark, get_recent, search,
}
use x_videos_dowloads.Cli.{Cli}
use x_videos_dowloads.Cli.Loop.{Draw}

pub data Action : Type 0 where
  config_created : (path : String) → Action
  config_exists : Action
  failed : (message : String) → Action
  run_gui : Action
  history_commands : Action
  run_server : (port : ℕ) → Action
  run_create_team : (name : String) → Action
  run_join_team : (invite_code : String) → Action
  run : AppConfig → Action

abbrev pub init_action : Result (Option String) → Action
init_action (err e) = failed e
init_action (ok none) = config_exists
init_action (ok (some path)) = config_created path

abbrev pub is_history_command : Cli → Bool
is_history_command cli =
    cli.history
    || (cli.bookmarks || (is_some cli.bookmark || (cli.clear_history || is_some cli.search)))

abbrev pub team_action : (create_team join_team : Option String) → AppConfig → Action
team_action (some name) join_team config = run_create_team name
team_action none (some invite_code) config = run_join_team invite_code
team_action none none config = run config

-- `main` once the configuration has been loaded.
abbrev pub loaded_action : Cli → Result AppConfig → Action
loaded_action cli (err e) = failed e
loaded_action cli (ok config) =
    if cli.gui
    then run_gui
    else if is_history_command cli
    then history_commands
    else if cli.start_server
    then run_server cli.server_port
    else team_action cli.create_team cli.join_team config

-- `main`: the file is initialised only if it is asked for.
unfoldable pub main : Cli → (init : Result (Option String)) (config : Result AppConfig) → Action
main cli init config = if cli.init_config then init_action init else loaded_action cli config

-- What is printed.
pub data Listing : Type 0 where
  message : Listing
  bookmark_list : List BookmarkEntry → Listing
  search_results : List HistoryEntry → Listing
  recent : List HistoryEntry → Listing

abbrev pub new_bookmark : Draw → (url : String) (title : Option String) → BookmarkEntry
new_bookmark d url title = record {
  id = d.id;
  url = url;
  title = title;
  added_at = d.now;
  note = none;
}

-- A bookmark that cannot be added is only reported.
abbrev pub bookmark_command :
    Cli → Draw → (url : String) → State → Result (Unit {0}) × State × Listing
bookmark_command cli d url s =
    (ok tt, (add_bookmark d.fault (new_bookmark d url cli.search) s).1, message)

abbrev pub search_command :
    (to_lowercase : String → String) → Option String → State → Result (Unit {0}) × State × Listing
search_command to_lowercase none s = (ok tt, s, recent (get_recent 20 s.history))
search_command to_lowercase (some query) s =
    (ok tt, s, search_results (search to_lowercase query s.history))

abbrev pub list_command :
    (to_lowercase : String → String)
    → Cli
    → Draw
    → Option String
    → State
    → Result (Unit {0}) × State × Listing
list_command to_lowercase cli d (some url) s = bookmark_command cli d url s
list_command to_lowercase cli d none s =
    if cli.bookmarks
    then (ok tt, s, bookmark_list s.history.bookmarks)
    else search_command to_lowercase cli.search s

-- `run_history_commands`, on the history that has been loaded.
unfoldable pub run_history_commands :
    (to_lowercase : String → String) → Cli → Draw → State → Result (Unit {0}) × State × Listing
run_history_commands to_lowercase cli d s =
    if cli.clear_history
    then ((clear d.fault s).0, (clear d.fault s).1, message)
    else list_command to_lowercase cli d cli.bookmark s
