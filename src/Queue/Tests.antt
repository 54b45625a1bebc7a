-- ===== src/Queue/Tests.antt =====
-- src/collaboration/client/queue.rs on a concrete queue.
use x_videos_dowloads.Prelude.{
  ℕ, ◌≡◌, refl, true, false, some, is_ok, if◌then◌else◌, List, [], ◌∷◌, ◌++◌, Option, none, retain,
  All, Distinct, str_eq,
}
use x_videos_dowloads.Types.{Task, new_task, new, queued, status_eq}
use x_videos_dowloads.Queue.{
  LocalQueue, Fault, fine, Op, progresses, adds, claims, queues, syncs, add_task, update_progress,
  open_queue, read_tasks, run_queue, sync_from_server,
}
use x_videos_dowloads.Queue.Urls.{urls, has_url, run_queue-Distinct, sync_from_server-covers}
use x_videos_dowloads.Float.{is_finite}

abbrev known : Task
known = record (new_task 5 0 "http://a" 1 8) { status = queued }

-- The client adds a task, the server sends another one, and the client claims that.
abbrev operations : List (Fault × Op)
operations =
    (fine, adds 7 10 "http://b")
    ∷ (fine, syncs (known ∷ []))
    ∷ (fine, claims 20 5)
    ∷ (fine, queues 7)
    ∷ []

abbrev empty_queue : LocalQueue
empty_queue = record { tasks = []; team_id = 1; device_id = 8; state_file = none }

run_queue-Distinct_example : Distinct str_eq (urls (run_queue operations empty_queue).tasks)
run_queue-Distinct_example =
    run_queue-Distinct operations empty_queue (tt, ((refl, tt), (tt, (tt, tt)))) tt

abbrev one_queue : LocalQueue
one_queue = record empty_queue { tasks = new_task 7 10 "http://b" 1 8 ∷ [] }

sync_from_server-covers_example :
    (extra : List Task) × ((sync_from_server fine (known ∷ []) one_queue).1.tasks
      ≡ (known ∷ []) ++ extra)
    × All
        (λ (t : Task). has_url t.url ((known ∷ []) ++ extra) ≡ true)
        (retain (λ (t : Task). status_eq t.status new) one_queue.tasks)
sync_from_server-covers_example = sync_from_server-covers fine (known ∷ []) one_queue

-- Reads a finite number as it was written.
abbrev exact : ℕ → Option ℕ
exact x = if is_finite x then some x else none

-- A progress of NaN is written, and the queue is an error from then on.
not_a_number :
    is_ok (
      open_queue exact 8 1
        (run_queue
          ((fine, adds 7 10 "http://b") ∷ (fine, progresses 7 0x7FF8000000000000) ∷ [])
          empty_queue).state_file)
    ≡ false
unfolding open_queue run_queue read_tasks is_finite update_progress add_task
not_a_number = refl
