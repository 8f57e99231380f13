-- ===== src/Jobs.antt =====
-- annotation/annotation/jobs/services.py: what a new distribution of a job deletes and what it keeps.
-- A set of tasks is a list of tasks, told apart by their id.
pub mod Laws
pub mod Kept
pub mod Statuses
pub mod Removal
pub mod Books
use badgerdoc.Base.{
  ℕ, Bool, true, false, not, ◌&&◌, Option, none, some, List, [], ◌∷◌, ◌++◌, if◌then◌else◌, ◌==◌,
  contains, filter_by, any_by, map,
}
use badgerdoc.Distribution.Types.{TaskStatus}

-- The columns of ManualAnnotationTask that these functions read. The pages are compared, but their
-- comparison has no effect.
pub record JobTask : Type 0 where
  pub id : ℕ
  pub file_id : ℕ
  pub pages : List ℕ
  pub is_validation : Bool
  pub status : TaskStatus

-- `task.status in {in_progress, finished}`
abbrev pub is_started : JobTask → Bool
is_started task = elim task.status [
  | TaskStatus.pending ↦ false
  | TaskStatus.ready ↦ false
  | TaskStatus.in_progress ↦ true
  | TaskStatus.finished ↦ true
]

-- `task.status in {pending, ready}`
abbrev pub is_unstarted : JobTask → Bool
is_unstarted task = elim task.status [
  | TaskStatus.pending ↦ true
  | TaskStatus.ready ↦ true
  | TaskStatus.in_progress ↦ false
  | TaskStatus.finished ↦ false
]

-- `a == b` on lists of pages.
abbrev pub same_pages : List ℕ → List ℕ → Bool
same_pages [] [] = true
same_pages [] (y ∷ ys) = false
same_pages (x ∷ xs) [] = false
same_pages (x ∷ xs) (y ∷ ys) = let rest = same_pages xs ys in if x == y then rest else false

-- `if (a, b)`: a tuple that is not empty is true, whatever it holds.
abbrev pub tuple_true : Bool × Bool → Bool
tuple_true (a, b) = true

-- The tasks over which `any` runs.
abbrev pub started_with : JobTask → List JobTask → List JobTask
started_with validation_task = filter_by (λ task.
    tuple_true
      (task.file_id == validation_task.file_id, same_pages task.pages validation_task.pages))

unfoldable pub get_tasks_to_delete : List JobTask → List JobTask
get_tasks_to_delete job_tasks =
    let started_annotation_tasks =
      filter_by (λ task. is_started task && not task.is_validation) job_tasks in
    let unstarted_tasks = filter_by is_unstarted job_tasks in
    filter_by (λ task. not task.is_validation) unstarted_tasks
    ++ filter_by (λ task. not (any_by (λ _. true) (started_with task started_annotation_tasks)))
        (filter_by (λ task. task.is_validation) unstarted_tasks)

-- An item of FileInWork; the pages are under the key "pages_number".
pub record FileInWork : Type 0 where
  pub file_id : ℕ
  pub pages_number : List ℕ

-- The dict with the keys "annotation" and "validation".
pub record PagesInWork : Type 0 where
  pub annotation : Option (List FileInWork)
  pub validation : Option (List FileInWork)

-- `setdefault(key, []).append(item)`
abbrev pub append_in_work : Option (List FileInWork) → FileInWork → Option (List FileInWork)
append_in_work none item = some (item ∷ [])
append_in_work (some items) item = some (items ++ item ∷ [])

abbrev pub add_in_work : PagesInWork → JobTask → PagesInWork
add_in_work work task =
    let item : FileInWork = record { file_id = task.file_id; pages_number = task.pages } in
    if task.is_validation
    then record { annotation = work.annotation; validation = append_in_work work.validation item }
    else record { annotation = append_in_work work.annotation item; validation = work.validation }

pub add_all_in_work : PagesInWork → List JobTask → PagesInWork
add_all_in_work work [] = work
add_all_in_work work (task ∷ tasks) = add_all_in_work (add_in_work work task) tasks

-- `set(job_tasks) - tasks_to_delete`
abbrev pub without_tasks : List JobTask → List JobTask → List JobTask
without_tasks job_tasks tasks_to_delete =
    filter_by (λ task. not (contains task.id (map (λ t. t.id) tasks_to_delete))) job_tasks

-- `iterate` is the order in which Python iterates a set of tasks.
unfoldable pub get_pages_in_work :
    (iterate : List JobTask → List JobTask) → List JobTask → List JobTask → PagesInWork
unfolding add_all_in_work
get_pages_in_work iterate job_tasks tasks_to_delete =
    add_all_in_work (record { annotation = none; validation = none })
      (iterate (without_tasks job_tasks tasks_to_delete))
