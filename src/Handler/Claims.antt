-- ===== src/Handler/Claims.antt =====
-- src/collaboration/server/handler.rs: a task goes to one claimant, one message after the other,
-- and to two where their handlers interleave.
use x_videos_dowloads.Prelude.{ℕ, ◌≡◌, refl, ◌∙◌, none, some, arith}
use x_videos_dowloads.Types.{Task, queued, error, task_claimed, ServerMessage}
use x_videos_dowloads.Db.Tasks.{update_task, overwrite}
use x_videos_dowloads.Handler.State.{Server, Env, send_to_device, broadcast_to_team}
use x_videos_dowloads.Handler.Tasks.{claim, claim_read, handle_claim_task, read_one}
use x_videos_dowloads.Handler.Reading.{read_one-none-fault, read_one-found, read_one-update_task}

-- The read of a task does not look at what was sent.
pub read_one-broadcast :
    (team_id k other : ℕ) (m : ServerMessage) (s : Server)
    → read_one none team_id k (broadcast_to_team other m s) ≡ read_one none team_id k s
unfolding read_one broadcast_to_team
read_one-broadcast team_id k other m s = refl

-- The server after a claim that the database takes.
claim_read-queued :
    (env : Env) (device_id team_id k : ℕ) (t : Task) (s : Server)
    → env.second_fault ≡ none
    → t.status ≡ queued
    → claim_read env device_id team_id k (some t) s
      ≡ broadcast_to_team team_id
          (task_claimed k device_id)
          (record s { db = (update_task none (claim env device_id t) team_id s.db).1 })
unfolding claim_read
claim_read-queued env device_id team_id k t s up free = rw (up, free, claim_read)

-- What the team reads after that.
read_one-claim :
    (env : Env) (device_id team_id k : ℕ) (t u : Task) (s : Server)
    → t.id ≡ k
    → u.id ≡ k
    → read_one none team_id k s ≡ some u
    → read_one none team_id k (
        broadcast_to_team team_id
          (task_claimed k device_id)
          (record s { db = (update_task none (claim env device_id t) team_id s.db).1 }))
      ≡ some (overwrite (claim env device_id t) u)
read_one-claim env device_id team_id k t u s at same e =
    read_one-broadcast team_id k team_id (task_claimed k device_id) _
    ∙ read_one-update_task team_id team_id k s (claim env device_id t)
    ∙ rw e (ground arith)

-- Where a device claims a task that is read as queued, and the database takes the write, the
-- task is stored with that claimant, and a claim of it in the same team that comes next, whoever
-- makes it and as long as its read succeeds, changes nothing and is told that the task is not
-- available.
pub handle_claim_task_exclusive :
    (env later : Env) (first second team_id k : ℕ) (t : Task) (s : Server)
    → read_one env.fault team_id k s ≡ some t
    → t.status ≡ queued
    → env.second_fault ≡ none
    → later.fault ≡ none
    → let after = handle_claim_task env first team_id k s in
      (read_one none team_id k after ≡ some (claim env first t))
      × (handle_claim_task later second team_id k after
          ≡ send_to_device second (error "Task not available") after)
unfolding handle_claim_task
handle_claim_task_exclusive env later first second team_id k t s e free up up' =
    let at = read_one-none-fault env.fault team_id k s t e in
    let id = (read_one-found team_id k s t at).0 in
    let claims = claim_read-queued env first team_id k t s up free in
    let after = read_one-claim env first team_id k t t s id id at in
    (rw (e, claims) after, rw (e, claims, up', after, claim_read) refl)

-- The handlers hold no lock between the read and the write of a task. Where two devices of a
-- team have both read it as queued, and the database takes both writes, each claim is stored in
-- turn, the team is told of both, and the second one stands, with a version that has grown by
-- one only.
pub claim_read-race :
    (env later : Env) (first second team_id k : ℕ) (t : Task) (s : Server)
    → read_one none team_id k s ≡ some t
    → t.status ≡ queued
    → env.second_fault ≡ none
    → later.second_fault ≡ none
    → let one = claim_read env first team_id k (some t) s in
      let two = claim_read later second team_id k (some t) one in
      (read_one none team_id k one ≡ some (claim env first t))
      × (read_one none team_id k two ≡ some (claim later second t))
      × (two.outbox
          ≡ (broadcast_to_team team_id
              (task_claimed k second)
              (broadcast_to_team team_id (task_claimed k first) s)).outbox)
claim_read-race env later first second team_id k t s e free up up' =
    let id = (read_one-found team_id k s t e).0 in
    let claims = claim_read-queued env first team_id k t s up free in
    let after = read_one-claim env first team_id k t t s id id e in
    let claims' =
      claim_read-queued later second team_id k t
        (broadcast_to_team team_id (task_claimed k first)
          (record s { db = (update_task none (claim env first t) team_id s.db).1 }))
        up' free in
    let after' =
      read_one-claim later second team_id k t (claim env first t)
        (broadcast_to_team team_id (task_claimed k first)
          (record s { db = (update_task none (claim env first t) team_id s.db).1 }))
        id id after in
    (
      rw claims after,
      rw (claims, claims') after',
      rw (claims, claims') (unfold broadcast_to_team in refl),
    )
