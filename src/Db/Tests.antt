-- ===== src/Db/Tests.antt =====
-- src/collaboration/server/db.rs on a concrete database.
use x_videos_dowloads.Prelude.{◌≡◌, refl, [], ◌∷◌, none, some, ok, true}
use x_videos_dowloads.Types.{Team, Task, new_task, queued, claimed}
use x_videos_dowloads.Db.Schema.{Database}
use x_videos_dowloads.Db.Integrity.{IsSound}
use x_videos_dowloads.Db.Messages.{get_offline_messages}

abbrev pub crew : Team
crew = record { id = 1; name = "crew"; invite_code = "0123456789ABCDEF"; created_at = 0 }

abbrev pub waiting : Task
waiting = record (new_task 5 0 "http://a" 1 8) { status = queued }

abbrev pub held : Task
held = record (new_task 6 0 "http://b" 1 8) {
  status = claimed;
  claimed_by = some 9;
  claimed_at = some 0;
}

abbrev pub fresh : Task
fresh = record (new_task 7 0 "http://c" 1 8) { status = queued }

abbrev pub library : Database
library = record {
  teams = crew ∷ [];
  devices = [];
  tasks = waiting ∷ held ∷ [];
  offline_messages = [];
  next_message_id = 1;
  foreign_keys = true;
}

pub library-IsSound : IsSound library
library-IsSound = record {
  team_ids_distinct = (refl, tt);
  codes_distinct = (refl, tt);
  device_ids_distinct = tt;
  task_ids_distinct = (refl, (refl, tt));
  urls_distinct = (refl, (refl, tt));
  devices_have_teams = λ _. tt;
  tasks_have_teams = λ _. (refl, (refl, tt));
}

abbrev mailbox : Database
mailbox = record library {
  offline_messages =
      record { id = 1; device_id = 8; message = "one"; created_at = 10 }
      ∷ record { id = 2; device_id = 9; message = "two"; created_at = 20 }
      ∷ [];
  next_message_id = 3;
}

waiting_for_8 : get_offline_messages none 8 mailbox ≡ ok ("one" ∷ [])
unfolding get_offline_messages
waiting_for_8 = refl
