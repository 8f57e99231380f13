-- ===== src/Jobs/Books/Validators.antt =====
-- annotation/annotation/tasks/services.py: finish_validation_task, which leaves the loads of other users behind.
use badgerdoc.Base.{
  ℕ, suc, ◌≡◌, refl, ◌∙◌, ap, sym, Bool, true, false, not, ◌&&◌, List, [], ◌∷◌, if◌then◌else◌,
  contains, All, Bool-cases, inl, inr, arith,
}
use badgerdoc.Annotations.Tables.{TaskRow}
use badgerdoc.Jobs.Books.{
  FileRow, UserRow, is_finished, unfinished_pages, task_pages, is_validation_of,
  finish_validation_rows,
}
use badgerdoc.Jobs.Books.Files.{IsRecorded}
use badgerdoc.Jobs.Books.Loads.{IsLoaded}
use badgerdoc.Jobs.Books.Keys.{IsKeyed}

-- The users of the validation tasks of the task's file that are not finished.
abbrev pub open_validators : TaskRow → List TaskRow → List ℕ
open_validators task [] = []
open_validators task (t ∷ tasks) =
    let rest = open_validators task tasks in
    if is_validation_of task t && not (is_finished t.status) then t.user_id ∷ rest else rest

pub finish_validation_rows-IsKeyed :
    (task : TaskRow) (lo hi : ℕ) (tasks : List TaskRow)
    → IsKeyed lo hi tasks
    → IsKeyed lo hi (finish_validation_rows task tasks)
finish_validation_rows-IsKeyed task lo hi [] k = k
finish_validation_rows-IsKeyed task lo hi (t ∷ tasks) k =
    elim (Bool-cases (is_validation_of task t)) [
      | inl e ↦ rw e (k.0, finish_validation_rows-IsKeyed task (suc t.id) hi tasks k.1)
      | inr e ↦ rw e (k.0, finish_validation_rows-IsKeyed task (suc t.id) hi tasks k.1)
    ]

task_pages-finish_validation_rows :
    (v : Bool) (task : TaskRow) (job file : ℕ) (tasks : List TaskRow)
    → task_pages v job file (finish_validation_rows task tasks) ≡ task_pages v job file tasks
task_pages-finish_validation_rows v task job file [] = refl
task_pages-finish_validation_rows v task job file (t ∷ tasks) =
    elim (Bool-cases (is_validation_of task t)) [
      | inl e ↦ rw (e, task_pages-finish_validation_rows v task job file tasks) refl
      | inr e ↦ rw (e, task_pages-finish_validation_rows v task job file tasks) refl
    ]

pub finish_validation_rows-IsRecorded :
    (task : TaskRow) (tasks : List TaskRow) (files : List FileRow)
    → All (IsRecorded tasks) files
    → All (IsRecorded (finish_validation_rows task tasks)) files
finish_validation_rows-IsRecorded task tasks [] r = tt
finish_validation_rows-IsRecorded task tasks (f ∷ files) r = (
  record {
    annotating = λ page.
        r.0.annotating page
        ∙ ap (contains page)
            (sym (task_pages-finish_validation_rows false task f.job_id f.file_id tasks));
    validating = λ page.
        r.0.validating page
        ∙ ap (contains page)
            (sym (task_pages-finish_validation_rows true task f.job_id f.file_id tasks));
  },
  finish_validation_rows-IsRecorded task tasks files r.1,
)

finish_validation_rows-unfinished_pages :
    (u : ℕ) (task : TaskRow) (tasks : List TaskRow)
    → contains u (open_validators task tasks) ≡ false
    → unfinished_pages u (finish_validation_rows task tasks) ≡ unfinished_pages u tasks
finish_validation_rows-unfinished_pages u task [] h = refl
finish_validation_rows-unfinished_pages u task (t ∷ tasks) h = ground (
  arith,
  h,
  Bool-cases (is_validation_of task t),
  Bool-cases (is_finished t.status),
  finish_validation_rows-unfinished_pages u task tasks,
)

-- It changes the loads of these users only.
pub finish_validation_rows-IsLoaded :
    (task : TaskRow) (stale left : List ℕ) (tasks : List TaskRow) (users : List UserRow)
    → ((u : ℕ)
        → contains u left ≡ false
        → (contains u stale ≡ false) × (contains u (open_validators task tasks) ≡ false))
    → All (IsLoaded stale tasks) users
    → All (IsLoaded left (finish_validation_rows task tasks)) users
finish_validation_rows-IsLoaded task stale left tasks [] m h = tt
finish_validation_rows-IsLoaded task stale left tasks (u ∷ users) m h = (
  record {
    load = λ fresh.
        h.0.load (m u.user_id fresh).0
        ∙ sym (finish_validation_rows-unfinished_pages u.user_id task tasks (m u.user_id fresh).1);
  },
  finish_validation_rows-IsLoaded task stale left tasks users m h.1,
)
