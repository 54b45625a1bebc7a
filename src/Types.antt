-- ===== src/Types.antt =====
-- src/collaboration/types.rs: the records that the server and its clients exchange.
-- A `Uuid` is its 128-bit number, with the nil identifier 0; a `DateTime<Utc>` counts nanoseconds;
-- an `f64` is its bit pattern; paths and URLs are their texts.
use x_videos_dowloads.Prelude.{ℕ, String, Bool, true, false, Option, none, List}
use x_videos_dowloads.Float.{f64_zero}

abbrev pub nil_id : ℕ
nil_id = 0

pub record Team : Type 0 where
  pub id : ℕ
  pub name : String
  pub invite_code : String
  pub created_at : ℕ

pub record Device : Type 0 where
  pub id : ℕ
  pub team_id : ℕ
  pub name : String
  pub public_ip : Option String
  pub public_port : Option ℕ
  pub last_seen : ℕ
  pub is_online : Bool

pub data TaskStatus : Type 0 where
  new queued claimed complete failed : TaskStatus

pub record Task : Type 0 where
  pub id : ℕ
  pub team_id : ℕ
  pub url : String
  pub status : TaskStatus
  pub claimed_by : Option ℕ
  pub claimed_at : Option ℕ
  pub progress : ℕ
  pub local_path : Option String
  pub file_size : Option ℕ
  pub created_by : ℕ
  pub created_at : ℕ
  pub version : ℕ

-- `Task::new`; the fresh identifier and the time come from the environment.
abbrev pub new_task : ℕ → ℕ → String → ℕ → ℕ → Task
new_task fresh_id now url team_id created_by = record {
  id = fresh_id;
  team_id = team_id;
  url = url;
  status = new;
  claimed_by = none;
  claimed_at = none;
  progress = f64_zero;
  local_path = none;
  file_size = none;
  created_by = created_by;
  created_at = now;
  version = 1;
}

-- The derived `==` of `TaskStatus`.
abbrev pub status_eq : TaskStatus → TaskStatus → Bool
status_eq new new = true
status_eq queued queued = true
status_eq claimed claimed = true
status_eq complete complete = true
status_eq failed failed = true
status_eq _ _ = false

pub data ClientMessage : Type 0 where
  register : (device_id team_id : ℕ) (name : String) → ClientMessage
  create_team : (name : String) → ClientMessage
  join_team : (invite_code : String) → ClientMessage
  heartbeat : (device_id : ℕ) → ClientMessage
  add_task : (url : String) → ClientMessage
  claim_task : (task_id : ℕ) → ClientMessage
  update_progress : (task_id progress : ℕ) → ClientMessage
  task_complete : (task_id : ℕ) (local_path : String) (file_size : ℕ) → ClientMessage
  request_file : (task_id : ℕ) → ClientMessage
  leave_team : (device_id : ℕ) → ClientMessage

pub data ServerMessage : Type 0 where
  registered : (device_id : ℕ) → ServerMessage
  team_created : (team : Team) → ServerMessage
  team_joined : (team : Team) → ServerMessage
  team_devices : (devices : List Device) → ServerMessage
  task_added : (task : Task) → ServerMessage
  task_claimed : (task_id device_id : ℕ) → ServerMessage
  task_updated : (task : Task) → ServerMessage
  task_released : (task_id : ℕ) (reason : String) → ServerMessage
  file_available :
      (task_id from_device : ℕ) (ip : String) (port : ℕ) (filename : String) (size : ℕ)
      → ServerMessage
  device_online : (device : Device) → ServerMessage
  device_offline : (device_id : ℕ) → ServerMessage
  error : (message : String) → ServerMessage
