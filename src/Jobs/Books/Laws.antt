-- ===== src/Jobs/Books/Laws.antt =====
-- jobs/services.py and tasks/services.py: the distributed pages and the overall loads stay right.
use badgerdoc.Base.{◌++◌, none, ℕ, Bool, some, List, [], ◌∷◌, filter_by, All}
use badgerdoc.Distribution.Types.{Task}
use badgerdoc.Annotations.Tables.{TaskRow}
use badgerdoc.Jobs.Books.{
  Books, users_of, create_tasks, owners_of, delete_tasks, delete_tasks_for_removed_users, find_row,
  finish_row, close_task, Agreement, unreached, told, not_told, tasks_to_drop,
}
use badgerdoc.Jobs.Books.Files.{IsRecorded, AreOf}
use badgerdoc.Jobs.Books.Loads.{IsLoaded, unlisted}
use badgerdoc.Jobs.Books.Validators.{open_validators}
use badgerdoc.Jobs.Books.Keys.{IsKeyed}

-- The rows have their own ids, each file has the pages of its tasks as distributed pages, and each user the
-- number of the pages of the unfinished tasks as overall load, the users in `stale` excepted.
pub record IsSettled (stale : List ℕ) (books : Books) : Type 0 where
  pub keys : IsKeyed 0 books.next_id books.tasks
  pub files : All (IsRecorded books.tasks) books.files
  pub users : All (IsLoaded stale books.tasks) books.users

-- The users whose loads finish_task leaves wrong, if those of `stale` were wrong: the users of validation tasks
-- that it finishes with its own, unless it updates their load.
abbrev pub left_by : Agreement → TaskRow → List TaskRow → List ℕ → List ℕ
left_by unreached task tasks stale = unlisted (task.user_id ∷ []) stale
left_by told task tasks stale = unlisted (task.user_id ∷ []) (open_validators task tasks ++ stale)
left_by not_told task tasks stale = task.user_id ∷ (open_validators task tasks ++ stale)

abbrev pub left_behind : Agreement → ℕ → Books → List ℕ → List ℕ
left_behind agreement id books stale = elim (find_row id books.tasks) [
  | none ↦ stale
  | some task ↦ left_by agreement task (finish_row id books.tasks) stale
]

-- The calls that change these tables, and the users that each leaves with a wrong load, from those before it.
-- The job of create_tasks is that of its tasks.
pub data Step : List ℕ → Books → List ℕ → Books → Type 0 where
  create :
      (new : List Task) (job : ℕ) (stale : List ℕ) (books : Books)
      → AreOf job new
      → Step stale books (unlisted (users_of new) stale) (create_tasks new job books)
  delete :
      (chosen : TaskRow → Bool) (stale : List ℕ) (books : Books)
      → Step stale books
          (unlisted (owners_of (filter_by chosen books.tasks)) stale)
          (delete_tasks (filter_by chosen books.tasks) books)
  remove :
      (users : List ℕ) (job : ℕ) (stale : List ℕ) (books : Books)
      → Step stale books
          (unlisted (owners_of (tasks_to_drop users job books.tasks)) stale)
          (delete_tasks_for_removed_users users job books).1
  close :
      (agreement : Agreement) (id : ℕ) (stale : List ℕ) (books : Books)
      → Step stale books (left_behind agreement id books stale) (close_task agreement id books)

-- Any number of calls.
pub data Reach : List ℕ → Books → List ℕ → Books → Type 0 where
  stop : (stale : List ℕ) (books : Books) → Reach stale books stale books
  go : {s t u : List ℕ} {a b c : Books} → Step s a t b → Reach t b u c → Reach s a u c
