-- ===== src/Queue/Steps.antt =====
-- src/collaboration/client/queue.rs: an operation leaves the queue or writes a change of it.
use x_videos_dowloads.Prelude.{
  ℕ, ◌≡◌, ◌⊎◌, inl, inr, String, false, any, find, str_eq, ◌==◌, ◌++◌, [], ◌∷◌, Bool-cases,
  Option-cases,
}
use x_videos_dowloads.Types.{Task, new_task, queued, status_eq}
use x_videos_dowloads.Queue.{
  LocalQueue, Fault, save, add_task, claim_task, take_over, change_task, change_any,
}

pub change_any-cases :
    (fault : Fault) (k : ℕ) (f : Task → Task) (q : LocalQueue)
    → ((change_any fault k f q).1 ≡ q) ⊎ ((change_any fault k f q).1 ≡ (change_task fault k f q).1)
unfolding change_any
change_any-cases fault k f q = elim (Option-cases (find (λ (t : Task). t.id == k) q.tasks)) [
  | inl e ↦ inl (rw (e, change_any))
  | inr (t, e) ↦ inr (rw (e, change_any))
]

pub claim_task-cases :
    (fault : Fault) (now k : ℕ) (q : LocalQueue)
    → ((claim_task fault now k q).1 ≡ q)
      ⊎ ((claim_task fault now k q).1 ≡ (change_task fault k (take_over now q.device_id) q).1)
unfolding claim_task
claim_task-cases fault now k q = elim (Option-cases (find (λ (t : Task). t.id == k) q.tasks)) [
  | inl e ↦ inl (rw (e, claim_task))
  | inr (t, e) ↦ elim (Bool-cases (status_eq t.status queued)) [
    | inl free ↦ inr (rw (e, free, claim_task))
    | inr held ↦ inl (rw (e, held, claim_task))
  ]
]

pub add_task-cases :
    (fault : Fault) (id now : ℕ) (url : String) (q : LocalQueue)
    → ((add_task fault id now url q).1 ≡ q)
      ⊎ (any (λ (t : Task). str_eq t.url url) q.tasks ≡ false)
        × ((add_task fault id now url q).1
            ≡ (save fault
                (new_task id now url q.team_id q.device_id)
                (record q { tasks = q.tasks ++ new_task id now url q.team_id q.device_id ∷ [] })).1)
unfolding add_task
add_task-cases fault id now url q =
    elim (Bool-cases (any (λ (t : Task). str_eq t.url url) q.tasks)) [
      | inl there ↦ inl (rw (there, add_task))
      | inr fresh ↦ inr (fresh, rw (fresh, add_task))
    ]
