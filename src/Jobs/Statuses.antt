-- ===== src/Jobs/Statuses.antt =====
-- annotation/annotation/jobs/services.py: set_task_statuses, which decides after a new distribution
-- which pending tasks are ready. A Counter is a list of its items; the defaultdict of counters is a
-- function of the file.
pub mod Laws
use badgerdoc.Base.{
  ℕ, ◌+◌, ◌-◌, ◌*◌, Bool, true, false, not, ◌||◌, ◌&&◌, List, [], ◌∷◌, if◌then◌else◌, ◌==◌, leb,
  ltb,
}
use badgerdoc.Distribution.Types.{TaskStatus}
use badgerdoc.Distribution.Run.{ValidationType}
use badgerdoc.Jobs.{JobTask}

abbrev pub Counter : Type 0
Counter = List (ℕ × ℕ)

-- `counter[page]`, zero for a page that is no key.
abbrev pub counter_get : ℕ → Counter → ℕ
counter_get page [] = 0
counter_get page ((key, n) ∷ items) = if key == page then n else counter_get page items

-- `page in counter.keys()`
abbrev pub has_page : ℕ → Counter → Bool
has_page page [] = false
has_page page ((key, _) ∷ items) = if key == page then true else has_page page items

abbrev pub counter_add : ℕ → Counter → Counter
counter_add page [] = (page, 1) ∷ []
counter_add page ((key, n) ∷ items) =
    let rest = counter_add page items in
    if key == page then (key, n + 1) ∷ items else (key, n) ∷ rest

-- `counter.update(Counter(pages))`; from the empty counter, `Counter(pages)`.
pub count_pages : Counter → List ℕ → Counter
count_pages counter [] = counter
count_pages counter (page ∷ pages) = count_pages (counter_add page counter) pages

-- `if counter[page] > 0: counter[page] -= 1`
abbrev pub counter_take : ℕ → Counter → Counter
counter_take page [] = []
counter_take page ((key, n) ∷ items) =
    let rest = counter_take page items in
    if key == page then (key, n - 1) ∷ items else (key, n) ∷ rest

pub take_pages_from : Counter → List ℕ → Counter
take_pages_from counter [] = counter
take_pages_from counter (page ∷ pages) = take_pages_from (counter_take page counter) pages

abbrev pub AnnotatedPages : Type 0
AnnotatedPages = ℕ → Counter

-- `annotated_pages[file_id] = counter`
abbrev pub set_counter : ℕ → Counter → AnnotatedPages → AnnotatedPages
set_counter file_id counter annotated = λ id. if id == file_id then counter else annotated id

abbrev pub is_finished : TaskStatus → Bool
is_finished TaskStatus.pending = false
is_finished TaskStatus.ready = false
is_finished TaskStatus.in_progress = false
is_finished TaskStatus.finished = true

abbrev pub is_pending : TaskStatus → Bool
is_pending TaskStatus.pending = true
is_pending TaskStatus.ready = false
is_pending TaskStatus.in_progress = false
is_pending TaskStatus.finished = false

-- The first loop.
pub finished_annotations : AnnotatedPages → List JobTask → AnnotatedPages
unfolding count_pages
finished_annotations annotated [] = annotated
finished_annotations annotated (task ∷ tasks) =
    let counter = count_pages (annotated task.file_id) task.pages in
    finished_annotations
      (if not task.is_validation && is_finished task.status
        then set_counter task.file_id counter annotated
        else annotated)
      tasks

-- `all(…)` over the items of the counter of a task's pages.
abbrev pub all_finished : ℕ → Counter → Counter → Bool
all_finished extensive_coverage finished_pages [] = true
all_finished extensive_coverage finished_pages ((page, count) ∷ items) =
    let rest = all_finished extensive_coverage finished_pages items in
    if has_page page finished_pages
      && leb (count * extensive_coverage) (counter_get page finished_pages)
    then rest
    else false

abbrev pub is_validation_only : ValidationType → Bool
is_validation_only ValidationType.cross = false
is_validation_only ValidationType.hierarchical = false
is_validation_only ValidationType.validation_only = true
is_validation_only ValidationType.extensive_coverage = false

abbrev pub make_ready : JobTask → JobTask
make_ready task = record task { status = TaskStatus.ready }

-- The body of the second loop: annotated_pages and the task as they are changed.
pub set_task_status : ValidationType → ℕ → AnnotatedPages → JobTask → AnnotatedPages × JobTask
unfolding count_pages take_pages_from
set_task_status validation_type coverage annotated task =
    let finished_pages = annotated task.file_id in
    let left = take_pages_from finished_pages task.pages in
    if not (is_pending task.status)
    then (annotated, task)
    else if not task.is_validation || is_validation_only validation_type
    then (annotated, make_ready task)
    else if all_finished coverage finished_pages (count_pages [] task.pages)
    then (set_counter task.file_id left annotated, make_ready task)
    else (annotated, task)

pub set_each_status : ValidationType → ℕ → AnnotatedPages → List JobTask → List JobTask
unfolding set_task_status
set_each_status validation_type coverage annotated [] = []
set_each_status validation_type coverage annotated (task ∷ tasks) =
    let (annotated', task') = set_task_status validation_type coverage annotated task in
    task' ∷ set_each_status validation_type coverage annotated' tasks

-- The tasks are returned with their new statuses.
unfoldable pub set_task_statuses : ValidationType → ℕ → List JobTask → List JobTask
unfolding finished_annotations set_each_status
set_task_statuses validation_type coverage job_new_tasks =
    set_each_status validation_type coverage (finished_annotations (λ _. []) job_new_tasks)
      job_new_tasks
