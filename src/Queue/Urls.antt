-- ===== src/Queue/Urls.antt =====
-- src/collaboration/client/queue.rs: URLs stay distinct, and a merge loses nothing.
use x_videos_dowloads.Prelude.{
  ℕ, ◌≡◌, refl, sym, subst, ap, ◌∙◌, String, Bool, true, List, [], ◌∷◌, ◌++◌, map, append-nil,
  append_assoc, any, any-append, retain, All, Distinct, Distinct-map-append, str_eq, str_eq_iff,
  ◌==◌, arith, Bool-cases, inl, inr,
}
use x_videos_dowloads.Types.{Task, new_task, new, status_eq}
use x_videos_dowloads.Queue.Steps.{change_any-cases, claim_task-cases, add_task-cases}
use x_videos_dowloads.Queue.{
  LocalQueue, Fault, fine, unwritten, cut_off, Op, adds, claims, progresses, completes, queues,
  syncs, after, run_queue, save, change_first, change_task, change_any, claim_task, update_progress,
  mark_complete, update_status_to_queued, merge, sync_from_server,
}

abbrev pub urls : List Task → List String
urls tasks = map (λ (t : Task). t.url) tasks

abbrev pub has_url : String → List Task → Bool
has_url url tasks = any (λ (t : Task). str_eq t.url url) tasks

-- The list that the server sends has distinct URLs, as its UNIQUE column has.
abbrev pub FromServer : Op → Type 0
FromServer (syncs tasks) = Distinct str_eq (urls tasks)
FromServer _ = Unit

urls-change_first :
    (k : ℕ) (f : Task → Task) (tasks : List Task)
    → ((t : Task) → (f t).url ≡ t.url)
    → urls (change_first k f tasks) ≡ urls tasks
unfolding change_first
urls-change_first k f [] same = refl
urls-change_first k f (t ∷ ts) same = elim (Bool-cases (t.id == k)) [
  | inl e ↦ rw (e, same t)
  | inr e ↦ rw (e, urls-change_first k f ts same)
]

save-tasks {ℓ} :
    {A : Type ℓ} (fault : Fault) (a : A) (q : LocalQueue) → (save fault a q).1.tasks ≡ q.tasks
unfolding save
save-tasks fine a q = refl
save-tasks (unwritten m) a q = refl
save-tasks (cut_off m text) a q = refl

change_task-urls :
    (fault : Fault) (k : ℕ) (f : Task → Task) (q : LocalQueue)
    → ((t : Task) → (f t).url ≡ t.url)
    → urls (change_task fault k f q).1.tasks ≡ urls q.tasks
unfolding change_task
change_task-urls fault k f q same =
    ap urls (save-tasks fault tt (record q { tasks = change_first k f q.tasks }))
    ∙ urls-change_first k f q.tasks same

change_any-urls :
    (fault : Fault) (k : ℕ) (f : Task → Task) (q : LocalQueue)
    → ((t : Task) → (f t).url ≡ t.url)
    → urls (change_any fault k f q).1.tasks ≡ urls q.tasks
unfolding change_any
change_any-urls fault k f q same = elim (change_any-cases fault k f q) [
  | inl e ↦ ap (λ (p : LocalQueue). urls p.tasks) e
  | inr e ↦ ap (λ (p : LocalQueue). urls p.tasks) e ∙ change_task-urls fault k f q same
]

claim_task-urls :
    (fault : Fault) (now k : ℕ) (q : LocalQueue)
    → urls (claim_task fault now k q).1.tasks ≡ urls q.tasks
claim_task-urls fault now k q = elim (claim_task-cases fault now k q) [
  | inl e ↦ ap (λ (p : LocalQueue). urls p.tasks) e
  | inr e ↦ ap (λ (p : LocalQueue). urls p.tasks) e ∙ change_task-urls fault k _ q (λ x. refl)
]

merge-Distinct :
    (local_new tasks : List Task)
    → Distinct str_eq (urls tasks)
    → Distinct str_eq (urls (merge local_new tasks))
unfolding merge
merge-Distinct [] tasks d = d
merge-Distinct (t ∷ ts) tasks d = elim (Bool-cases (has_url t.url tasks)) [
  | inl there ↦ rw there (merge-Distinct ts tasks d)
  | inr fresh ↦ rw fresh (
      merge-Distinct ts (tasks ++ t ∷ [])
        (Distinct-map-append str_eq (λ (x : Task). x.url) tasks t fresh d))
]

change_any-Distinct :
    (fault : Fault) (k : ℕ) (f : Task → Task) (q : LocalQueue)
    → ((t : Task) → (f t).url ≡ t.url)
    → Distinct str_eq (urls q.tasks)
    → Distinct str_eq (urls (change_any fault k f q).1.tasks)
change_any-Distinct fault k f q same d =
    subst (Distinct str_eq) (sym (change_any-urls fault k f q same)) d

after-Distinct :
    (fault : Fault) (op : Op) (q : LocalQueue)
    → FromServer op
    → Distinct str_eq (urls q.tasks)
    → Distinct str_eq (urls (after fault op q).tasks)
unfolding after update_progress mark_complete update_status_to_queued sync_from_server
after-Distinct fault (adds id now url) q v d = elim (add_task-cases fault id now url q) [
  | inl e ↦ rw e d
  | inr (fresh, e) ↦
      rw (e, save-tasks fault)
        (Distinct-map-append str_eq (λ (x : Task). x.url) q.tasks
          (new_task id now url q.team_id q.device_id) fresh d)
]
after-Distinct fault (claims now id) q v d = rw (claim_task-urls fault now id q) d
after-Distinct fault (progresses id p) q v d = change_any-Distinct fault id _ q (λ t. refl) d
after-Distinct fault (completes id path size) q v d = change_any-Distinct fault id _ q (λ t. refl) d
after-Distinct fault (queues id) q v d = change_any-Distinct fault id _ q (λ t. refl) d
after-Distinct fault (syncs tasks) q v d =
    rw (save-tasks fault)
      (merge-Distinct (retain (λ (t : Task). status_eq t.status new) q.tasks) tasks v)

-- The URLs of a queue in which they are distinct stay distinct under all operations, whichever
-- writes fail, if those of every list that the server sends are distinct.
pub run_queue-Distinct :
    (ops : List (Fault × Op)) (q : LocalQueue)
    → All (λ (e : Fault × Op). FromServer e.1) ops
    → Distinct str_eq (urls q.tasks)
    → Distinct str_eq (urls (run_queue ops q).tasks)
unfolding run_queue
run_queue-Distinct [] q v d = d
run_queue-Distinct ((fault, op) ∷ ops) q v d =
    run_queue-Distinct ops (after fault op q) v.1 (after-Distinct fault op q v.0 d)

-- What a merge gives: the list of the server, and after it tasks of the local ones, whose URLs are
-- all there.
merge-covers :
    (local_new tasks : List Task)
    → (extra : List Task) × (merge local_new tasks ≡ tasks ++ extra)
      × All (λ (t : Task). has_url t.url (tasks ++ extra) ≡ true) local_new
unfolding merge
merge-covers [] tasks = ([], sym (append-nil tasks), tt)
merge-covers (t ∷ ts) tasks = elim (Bool-cases (has_url t.url tasks)) [
  | inl there ↦
      let (extra, e, all) = merge-covers ts tasks in
      (
        extra,
        rw there e,
        (ground (arith, there, any-append (λ (x : Task). str_eq x.url t.url) tasks extra), all),
      )
  | inr fresh ↦
      let (extra, e, all) = merge-covers ts (tasks ++ t ∷ []) in
      let assoc : (tasks ++ t ∷ []) ++ extra ≡ tasks ++ t ∷ extra =
        append_assoc tasks (t ∷ []) extra in
      let self : str_eq t.url t.url ≡ true = (str_eq_iff t.url t.url).1 refl in
      (
        t ∷ extra,
        rw fresh (e ∙ assoc),
        (
          rw (any-append (λ (x : Task). str_eq x.url t.url) tasks (t ∷ extra), self, fresh),
          subst (λ (us : List Task). All (λ (x : Task). has_url x.url us ≡ true) ts) assoc all,
        ),
      )
]

-- A synchronisation takes the list of the server as it is and puts tasks behind it, so that
-- every local task in status `New` is there by its URL, whether the write of the file succeeds
-- or not.
pub sync_from_server-covers :
    (fault : Fault) (tasks : List Task) (q : LocalQueue)
    → (extra : List Task) × ((sync_from_server fault tasks q).1.tasks ≡ tasks ++ extra)
      × All
          (λ (t : Task). has_url t.url (tasks ++ extra) ≡ true)
          (retain (λ (t : Task). status_eq t.status new) q.tasks)
unfolding sync_from_server
sync_from_server-covers fault tasks q =
    let (extra, e, all) =
      merge-covers (retain (λ (t : Task). status_eq t.status new) q.tasks) tasks in
    (extra, rw (save-tasks fault) e, all)
