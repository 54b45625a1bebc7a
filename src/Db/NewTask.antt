-- ===== src/Db/NewTask.antt =====
-- src/collaboration/server/db.rs: when a new task is stored, and where.
use x_videos_dowloads.Prelude.{
  ℕ, ◌≡◌, refl, ap, sym, ◌≢◌, ◌∙◌, ◌⊎◌, inl, inr, String, Bool, true, false, ◌||◌, [], ◌∷◌, ◌++◌,
  Option, none, some, Result, ok, err, any, any-find, find, find-append, retain, retain-append,
  is_ok, ◌==◌, ==-self, str_eq, arith, Bool-cases,
}
use x_videos_dowloads.Types.{Task}
use x_videos_dowloads.Db.Schema.{Database, breaks_foreign_key}
use x_videos_dowloads.Db.Tasks.{create_task, insert_task_row, name_conflict, get_tasks_by_team}
use x_videos_dowloads.Db.Reading.{task_queries}

-- The identifier or the URL of the task is in the table.
abbrev pub is_taken : Task → Database → Bool
is_taken task db =
    any (λ (t : Task). t.id == task.id) db.tasks
    || any (λ (t : Task). str_eq t.url task.url) db.tasks

-- A statement that stores the row puts it at the end of a table without its identifier, and one
-- that does not leaves the table as it is.
pub insert_task_row-tasks :
    (fault : Option String) (row : Task) (db : Database)
    → ((insert_task_row fault row db).1 ≡ db) × (is_ok (insert_task_row fault row db).0 ≡ false)
      ⊎ ((insert_task_row fault row db).1 ≡ record db { tasks = db.tasks ++ row ∷ [] })
        × (any (λ (t : Task). t.id == row.id) db.tasks ≡ false)
unfolding insert_task_row
insert_task_row-tasks (some m) row db = inl (refl, refl)
insert_task_row-tasks none row db =
    elim (Bool-cases (any (λ (t : Task). t.id == row.id) db.tasks)) [
      | inl t ↦ rw t (inl (refl, refl))
      | inr f ↦ elim (Bool-cases (any (λ (t : Task). str_eq t.url row.url) db.tasks)) [
        | inl t ↦ rw (f, t) (inl (refl, refl))
        | inr g ↦ elim (Bool-cases (breaks_foreign_key row.team_id db)) [
          | inl t ↦ rw (f, g, t) (inl (refl, refl))
          | inr k ↦ rw (f, g, k) (inr (refl, refl))
        ]
      ]
    ]

is_ok-name_conflict : (r : Result (Unit {0})) → is_ok (name_conflict r) ≡ is_ok r
unfolding name_conflict
is_ok-name_conflict (ok u) = refl
is_ok-name_conflict (err m) = ground arith

true≢false : true ≢ false
true≢false e = cc

-- A stored task is found under its identifier.
pub create_task-stored :
    (fault : Option String) (task : Task) (team_id : ℕ) (db : Database) {u : Unit {0}}
    → (create_task fault task team_id db).0 ≡ ok u
    → find (λ (t : Task). t.id == task.id) (create_task fault task team_id db).1.tasks
      ≡ some (record task { team_id = team_id })
unfolding create_task
create_task-stored fault task team_id db e =
    let row = record task { team_id = team_id } in
    let here = λ (t : Task). t.id == task.id in
    elim (insert_task_row-tasks fault row db) [
      | inl (same, failed) ↦ absurd (
          true≢false
            (ap is_ok (sym e) ∙ is_ok-name_conflict (insert_task_row fault row db).0 ∙ failed))
      | inr (grown, absent) ↦
          ap (λ (d : Database). find here d.tasks) grown
          ∙ find-append here db.tasks (row ∷ [])
          ∙ ground (arith, any-find here db.tasks)
    ]

free_id :
    (task : Task) (db : Database)
    → is_taken task db ≡ false
    → any (λ (t : Task). t.id == task.id) db.tasks ≡ false
free_id task db free = ground arith

free_url :
    (task : Task) (db : Database)
    → is_taken task db ≡ false
    → any (λ (t : Task). str_eq t.url task.url) db.tasks ≡ false
free_url task db free = ground arith

-- Where SQLite reports no error, a task whose identifier or URL is in use, in whatever team, is
-- refused with "URL already exists", and the database does not change.
pub create_task-taken :
    (task : Task) (team_id : ℕ) (db : Database)
    → is_taken task db ≡ true
    → create_task none task team_id db ≡ (err "URL already exists", db)
unfolding create_task
create_task-taken task team_id db taken =
    elim (Bool-cases (any (λ (t : Task). t.id == task.id) db.tasks)) [
      | inl t ↦ rw t
      | inr f ↦
          let g : any (λ (t : Task). str_eq t.url task.url) db.tasks ≡ true = ground arith in
          rw (f, g)
    ]

-- Where SQLite reports no error, a task whose identifier and URL are free and whose team is known,
-- or need not be, is stored, and becomes the last task that its team lists.
pub create_task-lists :
    (task : Task) (team_id : ℕ) (db : Database)
    → is_taken task db ≡ false
    → breaks_foreign_key team_id db ≡ false
    → ((create_task none task team_id db).0 ≡ ok tt)
      × (get_tasks_by_team none team_id (create_task none task team_id db).1
          ≡ ok (
              retain (λ (t : Task). t.team_id == team_id) db.tasks
              ++ record task { team_id = team_id } ∷ []))
unfolding create_task
create_task-lists task team_id db free known =
    let grown : (create_task none task team_id db).1.tasks
        ≡ db.tasks ++ record task { team_id = team_id } ∷ [] =
      rw (free_id task db free, free_url task db free, known) in
    (
      rw (free_id task db free, free_url task db free, known),
      (task_queries team_id (create_task none task team_id db).1).0
          ∙ ap ok (
              ap (retain (λ (t : Task). t.team_id == team_id)) grown
              ∙ retain-append (λ (t : Task). t.team_id == team_id) db.tasks
                  (record task { team_id = team_id } ∷ [])
              ∙ ap (◌++◌ (retain (λ (t : Task). t.team_id == team_id) db.tasks))
                  (rw (==-self team_id))),
    )
