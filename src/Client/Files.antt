-- ===== src/Client/Files.antt =====
-- src/collaboration/client/ws.rs: `CollaborationClientWithFileHandler`. Files are found by their paths;
-- what a peer answers is a parameter.
use x_videos_dowloads.Prelude.{
  ℕ, ◌≡◌, ap, String, not, List, [], ◌∷◌, Option, none, some, Result, ok, find, retain, str_eq,
  if◌then◌else◌,
}
use x_videos_dowloads.Types.{ServerMessage, file_available}
use x_videos_dowloads.Auth.{Codec}
use x_videos_dowloads.Media.Names.{starts}
use x_videos_dowloads.Cli.Paths.{join}
use x_videos_dowloads.Chunks.{Peer, download_from_peer}
use x_videos_dowloads.Files.Server.{FileServer, FileSystem, register_file}
use x_videos_dowloads.Client.{Link, Event, connect, run, subscribed}
use x_videos_dowloads.Client.Silence.{run-subscribed}

abbrev pub Disk : Type 0
Disk = List (String × List ℕ)

abbrev pub content_of : Option (String × List ℕ) → Option (List ℕ)
content_of none = none
content_of (some e) = some e.1

abbrev pub stored : (path : String) → Option (List ℕ) → Disk → Disk
stored path none disk = disk
stored path (some content) disk =
    (path, content) ∷ retain (λ (e : String × List ℕ). not (str_eq e.0 path)) disk

-- `download_dir.join(&filename)`: an absolute name replaces the directory.
abbrev pub output_path : (download_dir filename : String) → String
output_path download_dir filename =
    if starts b'/' filename then filename else join download_dir filename

-- The file handler, on a message of its subscription.
unfoldable pub handle_message :
    (peers : (ip : String) (port task_id : ℕ) → Peer) (download_dir : String)
    → ServerMessage
    → Disk
    → Disk
handle_message peers download_dir (file_available task_id from_device ip port filename size) disk =
    let path = output_path download_dir filename in
    stored path
      (download_from_peer (peers ip port task_id)
        (content_of (find (λ (e : String × List ℕ). str_eq e.0 path) disk))).1
      disk
handle_message peers download_dir _ disk = disk

-- `start_file_handler`
unfoldable pub file_handler :
    (peers : (ip : String) (port task_id : ℕ) → Peer) (download_dir : String)
    → List ServerMessage
    → Disk
    → Disk
unfolding handle_message
file_handler peers download_dir [] disk = disk
file_handler peers download_dir (m ∷ ms) disk =
    file_handler peers download_dir ms (handle_message peers download_dir m disk)

-- `register_completed_file`: an error of the file server is only printed.
abbrev pub register_completed_file :
    FileSystem
    → (task_id : ℕ) (local_path : String) → Option FileServer
    → Result (Unit {0}) × Option FileServer
register_completed_file fs task_id local_path none = (ok tt, none)
register_completed_file fs task_id local_path (some server) =
    (ok tt, some (register_file fs task_id local_path server).1)

-- The file handler of a client stores nothing, whatever files the server announces to the client.
pub file_handler-idle :
    (peers : (ip : String) (port task_id : ℕ) → Peer) (download_dir : String) (disk : Disk)
    (codec : Codec) (link : Link) (server_url : String) (team_id device_id : ℕ)
    (device_name : String) (es : List Event)
    → file_handler peers download_dir
        (subscribed (run codec es (connect codec link server_url team_id device_id device_name).1))
        disk
      ≡ disk
unfolding file_handler
file_handler-idle peers download_dir disk codec link server_url team_id device_id device_name es =
    ap (λ ms. file_handler peers download_dir ms disk)
      (run-subscribed codec link server_url team_id device_id device_name es)
