-- ===== src/Db/Schema.antt =====
-- src/collaboration/server/db.rs: the tables that `init_schema` creates, as lists of rows in
-- insertion order. A row holds the values that its columns print; SQL statements have their
-- documented meaning, and each method also takes the error that SQLite reports for it, if any.
use x_videos_dowloads.Prelude.{
  ℕ, String, Bool, ◌&&◌, not, List, [], Option, none, some, Result, ok, err, any, ◌==◌,
}
use x_videos_dowloads.Types.{Team, Device, Task}

pub record OfflineMessage : Type 0 where
  pub id : ℕ
  pub device_id : ℕ
  pub message : String
  pub created_at : ℕ

-- `Database`; `foreign_keys` says whether the linked SQLite enforces them, and `next_message_id`
-- is the AUTOINCREMENT counter.
pub record Database : Type 0 where
  pub teams : List Team
  pub devices : List Device
  pub tasks : List Task
  pub offline_messages : List OfflineMessage
  pub next_message_id : ℕ
  pub foreign_keys : Bool

-- `Database::open` on a new file, which creates the empty tables.
abbrev pub empty_database : Bool → Database
empty_database foreign_keys = record {
  teams = [];
  devices = [];
  tasks = [];
  offline_messages = [];
  next_message_id = 1;
  foreign_keys = foreign_keys;
}

-- `FOREIGN KEY (team_id) REFERENCES teams(id)` refuses a row.
unfoldable pub breaks_foreign_key : ℕ → Database → Bool
breaks_foreign_key team_id db =
    db.foreign_keys && not (any (λ (t : Team). t.id == team_id) db.teams)

-- A query whose rows are `rows`, on a connection that may report an error.
abbrev pub query {ℓ} : {A : Type ℓ} → Option String → A → Result A
query none rows = ok rows
query (some message) rows = err message

-- A statement that turns the database into `after`.
abbrev pub execute : Option String → Database → Database → Result (Unit {0}) × Database
execute none after db = (ok tt, after)
execute (some message) after db = (err message, db)
