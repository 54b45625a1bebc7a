-- ===== src/Handler/Kept/Tasks.antt =====
-- src/collaboration/server/handler.rs: the handlers of tasks keep an invariant.
use x_videos_dowloads.Prelude.{
  ℕ, ◌≡◌, refl, String, true, Option, none, some, Result, ok, err, opt_eq, arith, Bool-cases,
  Option-cases, inl, inr,
}
use x_videos_dowloads.Types.{
  Task, queued, status_eq, ClientMessage, register, join_team, heartbeat, add_task, claim_task,
  update_progress, task_complete, request_file, leave_team, nil_id,
}
use x_videos_dowloads.Types
use x_videos_dowloads.HashRing.{get_owner}
use x_videos_dowloads.Db.Schema.{Database}
use x_videos_dowloads.Handler.State.{Server, Env, broadcast_to_team}
use x_videos_dowloads.Handler.Tasks.{
  added_task, assign_task, add_answer, claim, store, claim_read, by_claimant, request_read,
  read_one,
}
use x_videos_dowloads.Handler.Reading.{stored}
use x_videos_dowloads.Handler.Kept.{Change, claims, IsKept}

module _ (Q : Database → Type 0) (kept : IsKept Q) where
  assign_task-keeps :
      (env : Env) (device_id team_id : ℕ) (url : String) (o : Option ℕ) (s : Server)
      → stored s.db env.fresh_id ≡ some (added_task env device_id team_id url)
      → Q s.db
      → Q (assign_task env team_id (added_task env device_id team_id url) o s).db
  unfolding assign_task
  assign_task-keeps env device_id team_id url none s here q = q
  assign_task-keeps env device_id team_id url (some owner) s here q =
      kept.at_assign env.second_fault env device_id team_id owner url s.db here q

  pub add_answer-keeps :
      (env : Env) (device_id team_id : ℕ) (url : String) (r : Result (Unit {0})) (s : Server)
      → (r ≡ ok tt → stored s.db env.fresh_id ≡ some (added_task env device_id team_id url))
      → Q s.db
      → Q (add_answer env device_id team_id (added_task env device_id team_id url) r s).db
  unfolding add_answer
  add_answer-keeps env device_id team_id url (ok u) s here q =
      assign_task-keeps env device_id team_id url (get_owner s.hasher s.ring url) s (here refl) q
  add_answer-keeps env device_id team_id url (err e) s here q = q

  store-keeps :
      (env : Env) (device_id team_id k : ℕ) (t u : Task) (tell : Server → Server) (s : Server)
      → ((x : Server) → (tell x).db ≡ x.db)
      → read_one env.fault team_id k s ≡ some t
      → Change env device_id t u
      → Q s.db
      → Q (store env team_id u tell s).db
  unfolding store
  store-keeps env device_id team_id k t u tell s silent e c q =
      elim (Option-cases env.second_fault) [
        | inl up ↦ rw (up, silent _) (kept.at_change none env device_id team_id k t u s e c q)
        | inr (m, down) ↦ rw down (kept.at_change (some m) env device_id team_id k t u s e c q)
      ]

  broadcast-db :
      (team_id : ℕ) (m : Types.ServerMessage) (s : Server)
      → (broadcast_to_team team_id m s).db ≡ s.db
  unfolding broadcast_to_team
  broadcast-db team_id m s = refl

  pub claim_read-keeps :
      (env : Env) (device_id team_id k : ℕ) (o : Option Task) (s : Server)
      → read_one env.fault team_id k s ≡ o
      → Q s.db
      → Q (claim_read env device_id team_id k o s).db
  unfolding claim_read
  claim_read-keeps env device_id team_id k none s e q = q
  claim_read-keeps env device_id team_id k (some t) s e q =
      elim (Bool-cases (status_eq t.status queued)) [
        | inl free ↦ rw free (
            store-keeps env device_id team_id k t (claim env device_id t)
              (broadcast_to_team team_id (Types.task_claimed k device_id)) s
              (broadcast-db team_id (Types.task_claimed k device_id)) e (claims (ground arith)) q)
        | inr taken ↦ rw taken q
      ]

  pub by_claimant-keeps :
      (env : Env) (device_id team_id k : ℕ) (change : Task → Task) (o : Option Task) (s : Server)
      → ((t : Task)
          → opt_eq t.claimed_by (some device_id) ≡ true
          → Change env device_id t (change t))
      → read_one env.fault team_id k s ≡ o
      → Q s.db
      → Q (by_claimant env device_id team_id change o s).db
  unfolding by_claimant
  by_claimant-keeps env device_id team_id k change none s how e q = q
  by_claimant-keeps env device_id team_id k change (some t) s how e q =
      elim (Bool-cases (opt_eq t.claimed_by (some device_id))) [
        | inl own ↦ rw own (
            store-keeps env device_id team_id k t (change t)
              (broadcast_to_team team_id (Types.task_updated (change t))) s
              (broadcast-db team_id (Types.task_updated (change t))) e (how t own) q)
        | inr other ↦ rw other q
      ]

  pub request_read-db :
      (env : Env) (device_id k : ℕ) (o : Option Task) (s : Server)
      → (request_read env device_id k o s).db ≡ s.db
  unfolding request_read
  request_read-db env device_id k none s = refl
  request_read-db env device_id k (some t) s = ground arith
