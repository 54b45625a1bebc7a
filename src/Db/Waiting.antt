-- ===== src/Db/Waiting.antt =====
-- src/collaboration/server/db.rs: messages wait for a device in the order in which they came.
use x_videos_dowloads.Prelude.{
  ℕ, ◌≤◌, ◌≡◌, refl, ap, ◌∙◌, String, true, false, not, List, [], ◌∷◌, ◌++◌, map, map-append, none,
  ok, retain, retain-append, leb, ◌==◌, ==-self, arith, All, All-retain, Bool-cases, inl, inr,
}
use x_videos_dowloads.Db.Schema.{Database, OfflineMessage}
use x_videos_dowloads.Db.Messages.{
  save_offline_message, insert_by_time, order_by_time, get_offline_messages, clear_offline_messages,
}

-- No message came after this time.
abbrev pub CameBefore : ℕ → List OfflineMessage → Type 0
CameBefore now ms = All (λ (m : OfflineMessage). m.created_at ≤ now) ms

insert_by_time-append :
    (x m : OfflineMessage) (ms : List OfflineMessage)
    → x.created_at ≤ m.created_at
    → insert_by_time x (ms ++ m ∷ []) ≡ insert_by_time x ms ++ m ∷ []
unfolding insert_by_time
insert_by_time-append x m [] h = let t : leb x.created_at m.created_at ≡ true = ground arith in rw t
insert_by_time-append x m (y ∷ ms) h = elim (Bool-cases (leb x.created_at y.created_at)) [
  | inl t ↦ rw t
  | inr f ↦ rw (f, insert_by_time-append x m ms h)
]

order_by_time-append :
    (m : OfflineMessage) (ms : List OfflineMessage)
    → CameBefore m.created_at ms
    → order_by_time (ms ++ m ∷ []) ≡ order_by_time ms ++ m ∷ []
unfolding order_by_time
order_by_time-append m [] h = unfold insert_by_time in refl
order_by_time-append m (x ∷ ms) h =
    ap (insert_by_time x) (order_by_time-append m ms h.1)
    ∙ insert_by_time-append x m (order_by_time ms) h.0

retain-none :
    (k : ℕ) (ms : List OfflineMessage)
    → retain
        (λ (m : OfflineMessage). m.device_id == k)
        (retain (λ (m : OfflineMessage). not (m.device_id == k)) ms)
      ≡ []
retain-none k [] = refl
retain-none k (m ∷ ms) = ground (arith, retain-none k ms)

retain_other :
    (k j : ℕ) (ms : List OfflineMessage)
    → (j == k) ≡ false
    → retain
        (λ (m : OfflineMessage). m.device_id == j)
        (retain (λ (m : OfflineMessage). not (m.device_id == k)) ms)
      ≡ retain (λ (m : OfflineMessage). m.device_id == j) ms
retain_other k j [] h = refl
retain_other k j (m ∷ ms) h = ground (arith, retain_other k j ms h)

-- Where SQLite reports no error, a message that is saved after all others have come is the last
-- that its device is given, and clearing a device leaves it none and another device its own.
pub offline_messages_in_order :
    (now device_id other : ℕ) (message : String) (earlier : List String) (db : Database)
    → get_offline_messages none device_id db ≡ ok earlier
    → CameBefore now db.offline_messages
    → (other == device_id) ≡ false
    → (get_offline_messages none device_id (save_offline_message none now device_id message db).1
        ≡ ok (earlier ++ message ∷ []))
      × (get_offline_messages none device_id (clear_offline_messages none device_id db).1 ≡ ok [])
      × (get_offline_messages none other (clear_offline_messages none device_id db).1
          ≡ get_offline_messages none other db)
unfolding get_offline_messages save_offline_message clear_offline_messages
offline_messages_in_order now device_id other message earlier db given came apart =
    let mine = λ (m : OfflineMessage). m.device_id == device_id in
    let row : OfflineMessage = record {
      id = db.next_message_id;
      device_id = device_id;
      message = message;
      created_at = now;
    } in
    let kept = retain mine db.offline_messages in
    let same : map (λ (m : OfflineMessage). m.message) (order_by_time kept) ≡ earlier = cc given in
    let self = ==-self device_id in
    let grown : retain mine (db.offline_messages ++ row ∷ []) ≡ kept ++ row ∷ [] =
      retain-append mine db.offline_messages (row ∷ []) ∙ rw self in
    (
      ap
            (λ (ms : List OfflineMessage).
              ok (map (λ (m : OfflineMessage). m.message) (order_by_time ms)))
            grown
          ∙ ap (λ (ms : List OfflineMessage). ok (map (λ (m : OfflineMessage). m.message) ms))
              (order_by_time-append row kept (All-retain _ mine db.offline_messages came))
          ∙ ap ok (map-append (λ (m : OfflineMessage). m.message) (order_by_time kept) (row ∷ []))
          ∙ ap (λ (ms : List String). ok (ms ++ message ∷ [])) same,
      rw (retain-none device_id db.offline_messages) (unfold order_by_time in refl),
      rw (retain_other device_id other db.offline_messages apart),
    )
