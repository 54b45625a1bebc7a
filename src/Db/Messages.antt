-- ===== src/Db/Messages.antt =====
-- src/collaboration/server/db.rs: the messages that wait for a device.
use x_videos_dowloads.Prelude.{
  ℕ, ◌+◌, String, not, List, [], ◌∷◌, ◌++◌, map, Option, Result, retain, leb, ◌==◌, if◌then◌else◌,
}
use x_videos_dowloads.Db.Schema.{Database, OfflineMessage, query, execute}

-- `Database::save_offline_message`
unfoldable pub save_offline_message :
    Option String → (now device_id : ℕ) → String → Database → Result (Unit {0}) × Database
save_offline_message fault now device_id message db =
    execute fault
      (record db {
        offline_messages =
            db.offline_messages
            ++ record {
              id = db.next_message_id;
              device_id = device_id;
              message = message;
              created_at = now;
            }
              ∷ [];
        next_message_id = db.next_message_id + 1;
      })
      db

-- `ORDER BY created_at`: rows of equal times stay in the order of their identifiers.
unfoldable pub insert_by_time : OfflineMessage → List OfflineMessage → List OfflineMessage
insert_by_time m [] = m ∷ []
insert_by_time m (n ∷ ns) =
    if leb m.created_at n.created_at then m ∷ n ∷ ns else n ∷ insert_by_time m ns

unfoldable pub order_by_time : List OfflineMessage → List OfflineMessage
unfolding insert_by_time
order_by_time [] = []
order_by_time (m ∷ ms) = insert_by_time m (order_by_time ms)

-- `Database::get_offline_messages`
unfoldable pub get_offline_messages : Option String → ℕ → Database → Result (List String)
unfolding order_by_time
get_offline_messages fault device_id db = query fault (
    map (λ (m : OfflineMessage). m.message)
      (order_by_time
        (retain (λ (m : OfflineMessage). m.device_id == device_id) db.offline_messages)))

-- `Database::clear_offline_messages`
unfoldable pub clear_offline_messages : Option String → ℕ → Database → Result (Unit {0}) × Database
clear_offline_messages fault device_id db =
    execute fault
      (record db {
        offline_messages =
            retain (λ (m : OfflineMessage). not (m.device_id == device_id)) db.offline_messages;
      })
      db
