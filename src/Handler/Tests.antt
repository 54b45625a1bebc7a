-- ===== src/Handler/Tests.antt =====
-- src/collaboration/server/handler.rs on a concrete server, with two devices of one team.
use x_videos_dowloads.Prelude.{◌*◌, ◌≡◌, refl, List, [], ◌∷◌, none, some, true, update_where, inl}
use x_videos_dowloads.Float.{f64_lt}
use x_videos_dowloads.Types.{
  Task, new_task, queued, claim_task, create_team, add_task, task_claimed, file_available,
  task_updated, task_released, error,
}
use x_videos_dowloads.HashRing.{Hasher, empty_ring, get_owner}
use x_videos_dowloads.Db.Schema.{Database, breaks_foreign_key}
use x_videos_dowloads.Db.Teams.{create_team as store_team}
use x_videos_dowloads.Db.Devices.{insert_device_row}
use x_videos_dowloads.Db.Tasks.{release, get_tasks_by_team, create_task, update_task, release_task}
use x_videos_dowloads.Db.Integrity.{IsSound}
use x_videos_dowloads.Db.Tests.{library, library-IsSound, waiting, held}
use x_videos_dowloads.Handler.State.{
  Server, Env, new_server, broadcast_to_team, send_to_device, get_session, register_client,
}
use x_videos_dowloads.Handler.Teams.{placeholder, handle_create_team}
use x_videos_dowloads.Handler.Tasks.{
  finish, handle_task_complete, claim, claim_read, handle_claim_task, handle_request_file,
  handle_add_task, read_one, shown_name,
}
use x_videos_dowloads.Handler.Timeouts.{
  minute, times_out, release_overdue, check_task_timeouts, check_all_task_timeouts,
}
use x_videos_dowloads.Handler.Dispatch.{Event, connected, received, ticked, run, on_text}
use x_videos_dowloads.Handler.Claims.{handle_claim_task_exclusive, claim_read-race}
use x_videos_dowloads.Handler.Coherence.{IsCoherent, run-IsSound, run-IsCoherent}
use x_videos_dowloads.Handler.Ghosts.{handle_request_file-no_address}
use x_videos_dowloads.Handler.FirstTeam.{check_all_task_timeouts-first_team}
use x_videos_dowloads.Handler.Release.{is_released}
use x_videos_dowloads.Handler.Kept.{claims}
use x_videos_dowloads.Handler.Interleaved.{Shared, Reach, here, next, reads, changes, releases}
use x_videos_dowloads.Handler.Interleaved.Fits.{Stays, Reach-keeps}
use x_videos_dowloads.Handler.Interleaved.Stale.{release_overdue_stale}

abbrev hasher : Hasher
hasher = record { hash_device = λ id. id; hash_url = λ url. 3 }

-- Ten minutes after the tasks were claimed.
abbrev env : Env
env = record {
  now = 10 * minute;
  fresh_id = 7;
  draw = λ i. i;
  parses_ip = λ ip. true;
  fault = none;
  second_fault = none;
  scan_fault = λ team_id. none;
  release_fault = λ task_id. none;
}

abbrev busy : Server
busy = record {
  db = library;
  sessions =
      record { key = 100; device_id = 8; team_id = 1 }
      ∷ record { key = 101; device_id = 9; team_id = 1 }
      ∷ [];
  ring = empty_ring;
  hasher = hasher;
  outbox = [];
}

reads_waiting : read_one none 1 5 busy ≡ some waiting
unfolding read_one get_tasks_by_team
reads_waiting = refl

handle_claim_task_exclusive_example :
    (read_one none 1 5 (handle_claim_task env 8 1 5 busy) ≡ some (claim env 8 waiting))
    × (handle_claim_task env 9 1 5 (handle_claim_task env 8 1 5 busy)
        ≡ send_to_device 9 (error "Task not available") (handle_claim_task env 8 1 5 busy))
handle_claim_task_exclusive_example =
    handle_claim_task_exclusive env env 8 9 1 5 waiting busy reads_waiting refl refl refl

claim_read-race_example :
    let one = claim_read env 8 1 5 (some waiting) busy in
    let two = claim_read env 9 1 5 (some waiting) one in
    (read_one none 1 5 one ≡ some (claim env 8 waiting))
    × (read_one none 1 5 two ≡ some (claim env 9 waiting))
    × (two.outbox
        ≡ (broadcast_to_team 1
            (task_claimed 5 9)
            (broadcast_to_team 1 (task_claimed 5 8) busy)).outbox)
claim_read-race_example = claim_read-race env env 8 9 1 5 waiting busy reads_waiting refl refl refl

-- Two claims and a tick of the timeout task.
abbrev history : List (Env × Event)
history =
    (env, received 100 (claim_task 5)) ∷ (env, received 101 (claim_task 5)) ∷ (env, ticked) ∷ []

run-IsSound_example : IsSound (run history (new_server hasher true)).db
run-IsSound_example = run-IsSound history hasher true

run-IsCoherent_example : IsCoherent (run history (new_server hasher true)).db
run-IsCoherent_example = run-IsCoherent history hasher true

-- The statements of the two claims of `claim_read-race`, and a release between them.
abbrev quiet : Shared
quiet = record { db = library; rows = [] }

abbrev first_claim : Database
first_claim = (update_task none (claim env 8 waiting) 1 library).1

abbrev freed : Database
freed = (release_task none 5 first_claim).1

abbrev second_claim : Database
second_claim = (update_task none (claim env 9 waiting) 1 freed).1

interleaved : Reach quiet (record { db = second_claim; rows = waiting ∷ [] })
interleaved =
    next
      (next
        (next (next here (reads none 1 5 busy waiting refl reads_waiting))
          (changes none env 8 1 waiting (claim env 8 waiting) (inl refl) (claims refl)))
        (releases none 5))
      (changes none env 9 1 waiting (claim env 9 waiting) (inl refl) (claims refl))

Reach-keeps_example : IsSound second_claim × IsCoherent second_claim × Stays 5 waiting second_claim
Reach-keeps_example =
    Reach-keeps quiet (record { db = second_claim; rows = waiting ∷ [] }) 5 waiting interleaved
      (record { sound = library-IsSound; coherent = (tt, (tt, tt)); rows_coherent = tt }) refl

reads_held : read_one none 1 6 busy ≡ some held
unfolding read_one get_tasks_by_team
reads_held = refl

late : times_out env.now held.claimed_at held.progress ≡ true
unfolding times_out f64_lt
late = refl

release_overdue_stale_example :
    let one = handle_task_complete env 9 1 6 "/tmp/b.mp4" 5 busy in
    let two = release_overdue env 1 (held ∷ []) one in
    (read_one none 1 6 one ≡ some (finish "/tmp/b.mp4" 5 held))
    × (read_one none 1 6 two ≡ some (release (finish "/tmp/b.mp4" 5 held)))
    × (two.outbox
        ≡ (broadcast_to_team 1
            (task_released 6 "timeout")
            (broadcast_to_team 1 (task_updated (finish "/tmp/b.mp4" 5 held)) busy)).outbox)
release_overdue_stale_example =
    release_overdue_stale env env 9 1 6 "/tmp/b.mp4" 5 held busy reads_held refl refl late refl

-- One of the two tasks is due.
released_tasks :
    update_where (is_released env 1) release library.tasks ≡ waiting ∷ release held ∷ []
unfolding times_out f64_lt
released_tasks = refl

-- The first team's placeholder is the device row.
abbrev joined : Server
joined = record busy { db = record library { devices = placeholder 0 1 "laptop" ∷ [] } }

check_all_task_timeouts-first_team_example :
    check_all_task_timeouts env (run history joined)
    ≡ check_task_timeouts env 1 (run history joined)
check_all_task_timeouts-first_team_example =
    check_all_task_timeouts-first_team 1 joined history env
      (placeholder 0 1 "laptop", refl, refl, refl) refl

-- A device creates team 7, adds a task to it and claims the task.
abbrev story : List (Env × Event)
story =
    (env, connected 100 8 0)
    ∷ (env, received 100 (create_team "crew"))
    ∷ (env, received 100 (add_task "http://a"))
    ∷ (env, received 100 (claim_task 7))
    ∷ []

abbrev mine : Task
mine = claim env 8 (record (new_task 7 env.now "http://a" 7 8) { status = queued })

reads_mine : read_one none 7 7 (run story (new_server hasher true)) ≡ some mine
unfolding read_one get_tasks_by_team run handle_claim_task handle_add_task handle_create_team
    on_text get_session register_client store_team create_task insert_device_row breaks_foreign_key
    get_owner update_task
reads_mine = refl

handle_request_file-no_address_example :
    handle_request_file env 9 7 7 (run story (new_server hasher true))
    ≡ send_to_device 9 (file_available 7 8 "0.0.0.0" 0 "" 0) (run story (new_server hasher true))
unfolding shown_name
handle_request_file-no_address_example =
    handle_request_file-no_address story hasher true env 9 7 7 8 mine reads_mine refl
