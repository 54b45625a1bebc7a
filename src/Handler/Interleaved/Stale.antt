-- ===== src/Handler/Interleaved/Stale.antt =====
-- src/collaboration/server/handler.rs: the timeout task against the completion of a task.
use x_videos_dowloads.Prelude.{
  ℕ, ◌≡◌, refl, ap, ◌∙◌, sym, String, true, [], ◌∷◌, none, some, opt_eq, arith, find,
  find-update_where, retain-update_where, update_found, ◌==◌,
}
use x_videos_dowloads.Types.{Task, task_updated, task_released}
use x_videos_dowloads.Db.Tasks.{update_task, release_task, release}
use x_videos_dowloads.Handler.State.{Server, Env, broadcast_to_team}
use x_videos_dowloads.Handler.Tasks.{read_one, finish, by_claimant, handle_task_complete}
use x_videos_dowloads.Handler.Timeouts.{times_out, release_one, release_overdue}
use x_videos_dowloads.Handler.Claims.{read_one-broadcast}
use x_videos_dowloads.Handler.Reading.{
  read_one_lem, read_one-none-fault, read_one-found, read_one-update_task,
}

read_one-release_task :
    (team_id task_id k : ℕ) (s : Server)
    → read_one none team_id k (record s { db = (release_task none task_id s.db).1 })
      ≡ update_found (λ (t : Task). t.id == task_id) release (read_one none team_id k s)
unfolding release_task
read_one-release_task team_id task_id k s =
    let q = λ (t : Task). t.id == task_id in
    read_one_lem team_id k _
    ∙ ap (find (λ (t : Task). t.id == k))
        (retain-update_where (λ (t : Task). t.team_id == team_id) q release (λ t. refl) s.db.tasks)
    ∙ find-update_where (λ (t : Task). t.id == k) q release (λ t. refl) _
    ∙ ap (update_found q release) (sym (read_one_lem team_id k s))

-- The server after a completion that the database takes.
completed :
    (env : Env) (device_id team_id k : ℕ) (path : String) (size : ℕ) (t : Task) (s : Server)
    → read_one env.fault team_id k s ≡ some t
    → opt_eq t.claimed_by (some device_id) ≡ true
    → env.second_fault ≡ none
    → handle_task_complete env device_id team_id k path size s
      ≡ broadcast_to_team team_id
          (task_updated (finish path size t))
          (record s { db = (update_task none (finish path size t) team_id s.db).1 })
unfolding handle_task_complete by_claimant
completed env device_id team_id k path size t s e own up = rw (handle_task_complete, e, own, up)

release_one-free :
    (env : Env) (team_id : ℕ) (t : Task) (s : Server)
    → env.release_fault t.id ≡ none
    → release_one env team_id t s
      ≡ broadcast_to_team team_id
          (task_released t.id "timeout")
          (record s { db = (release_task none t.id s.db).1 })
unfolding release_one
release_one-free env team_id t s up = rw (release_one, up)

-- The server after a turn of the timeout loop whose release the database takes.
released :
    (env : Env) (team_id : ℕ) (t : Task) (s : Server)
    → times_out env.now t.claimed_at t.progress ≡ true
    → env.release_fault t.id ≡ none
    → release_overdue env team_id (t ∷ []) s
      ≡ broadcast_to_team team_id
          (task_released t.id "timeout")
          (record s { db = (release_task none t.id s.db).1 })
unfolding release_overdue
released env team_id t s late up = rw late (release_one-free env team_id t s up)

-- The timeout task looks at the rows that it has read, and releases by the identifier alone. Where
-- it has read a claimed task that is overdue, the claimant then completes the task, and the loop
-- comes to it afterwards, with no fault of the database in between, the task is complete at first,
-- and then queued again, with no claimant and no progress, though its file has been reported; the
-- team is told of both.
pub release_overdue_stale :
    (env later : Env) (device_id team_id k : ℕ) (path : String) (size : ℕ) (t : Task) (s : Server)
    → read_one later.fault team_id k s ≡ some t
    → opt_eq t.claimed_by (some device_id) ≡ true
    → later.second_fault ≡ none
    → times_out env.now t.claimed_at t.progress ≡ true
    → env.release_fault t.id ≡ none
    → let one = handle_task_complete later device_id team_id k path size s in
      let two = release_overdue env team_id (t ∷ []) one in
      (read_one none team_id k one ≡ some (finish path size t))
      × (read_one none team_id k two ≡ some (release (finish path size t)))
      × (two.outbox
          ≡ (broadcast_to_team team_id
              (task_released k "timeout")
              (broadcast_to_team team_id (task_updated (finish path size t)) s)).outbox)
release_overdue_stale env later device_id team_id k path size t s e own up late free =
    let at = read_one-none-fault later.fault team_id k s t e in
    let id = (read_one-found team_id k s t at).0 in
    let finished = completed later device_id team_id k path size t s e own up in
    let after : Server =
      broadcast_to_team team_id (task_updated (finish path size t))
        (record s { db = (update_task none (finish path size t) team_id s.db).1 }) in
    let done : read_one none team_id k after ≡ some (finish path size t) =
      read_one-broadcast team_id k team_id (task_updated (finish path size t)) _
      ∙ read_one-update_task team_id team_id k s (finish path size t)
      ∙ rw at (ground arith) in
    let loop = released env team_id t after late free in
    let back =
      read_one-broadcast team_id k team_id (task_released t.id "timeout") _
      ∙ read_one-release_task team_id t.id k after
      ∙ rw done (ground arith) in
    (
      rw finished done,
      rw (finished, loop) back,
      rw (finished, loop, id) (unfold broadcast_to_team in refl),
    )
