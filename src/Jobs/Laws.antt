-- ===== src/Jobs/Laws.antt =====
-- Which tasks a new distribution deletes, and which pages stay in work.
use badgerdoc.Base.{
  ℕ, ◌+◌, ◌≡◌, refl, ap, Bool, true, false, not, ◌&&◌, ◌||◌, Option, none, some, List, [], ◌∷◌,
  ◌++◌, if◌then◌else◌, ◌==◌, contains, count, filter_by, any_by, map, arith,
}
use badgerdoc.Jobs.{
  JobTask, is_started, is_unstarted, started_with, get_tasks_to_delete, FileInWork, PagesInWork,
  append_in_work, add_in_work, add_all_in_work, without_tasks, get_pages_in_work,
}

-- The sum of a weight over the tasks.
abbrev pub tally : (JobTask → ℕ) → List JobTask → ℕ
tally weight [] = 0
tally weight (t ∷ ts) = weight t + tally weight ts

-- Some annotation task has been started, of whatever file.
abbrev pub annotation_started : List JobTask → Bool
annotation_started = any_by (λ t. is_started t && not t.is_validation)

tally-append :
    (weight : JobTask → ℕ) (xs ys : List JobTask)
    → tally weight (xs ++ ys) ≡ tally weight xs + tally weight ys
tally-append weight [] ys = omega arith
tally-append weight (x ∷ xs) ys = omega (arith, tally-append weight xs ys)

tally-without :
    (weight : JobTask → ℕ) (drop : JobTask → Bool) (xs : List JobTask)
    → tally weight (filter_by (λ t. not (drop t)) xs)
      ≡ tally (λ t. if drop t then 0 else weight t) xs
tally-without weight drop [] = refl
tally-without weight drop (x ∷ xs) = ground (arith, tally-without weight drop xs)

any_started :
    (v : JobTask) (tasks : List JobTask)
    → any_by
        (λ _. true)
        (started_with v (filter_by (λ t. is_started t && not t.is_validation) tasks))
      ≡ annotation_started tasks
any_started v [] = refl
any_started v (t ∷ ts) = ground (arith, any_started v ts)

tally-deleted :
    (weight : JobTask → ℕ) (started : Bool) (unneeded : JobTask → Bool) (tasks : List JobTask)
    → ((v : JobTask) → unneeded v ≡ not started)
    → tally weight (filter_by (λ t. not t.is_validation) (filter_by is_unstarted tasks))
        + tally weight
            (filter_by unneeded (filter_by (λ t. t.is_validation) (filter_by is_unstarted tasks)))
      ≡ tally
          (λ t. if is_unstarted t && (not t.is_validation || not started) then weight t else 0)
          tasks
tally-deleted weight started unneeded [] h = omega arith
tally-deleted weight started unneeded (t ∷ ts) h =
    ground (arith, tally-deleted weight started unneeded ts h, h t)

-- A task that is not started, and is for annotation or no annotation task is started.
abbrev pub is_replaced : (started : Bool) → JobTask → Bool
is_replaced started t = is_unstarted t && (not t.is_validation || not started)

-- A task is deleted exactly if it is not started, and is for annotation or no annotation task of the job
-- is started; the files and the pages of the tasks play no part. Stated by the sum of any weight.
pub get_tasks_to_delete_lem :
    (weight : JobTask → ℕ) (tasks : List JobTask)
    → tally weight (get_tasks_to_delete tasks)
      ≡ tally (λ t. if is_replaced (annotation_started tasks) t then weight t else 0) tasks
unfolding get_tasks_to_delete
get_tasks_to_delete_lem weight tasks =
    let unneeded = λ (v : JobTask). not (
      any_by (λ _. true)
        (started_with v (filter_by (λ t. is_started t && not t.is_validation) tasks))) in
    let annotation = filter_by (λ t. not t.is_validation) (filter_by is_unstarted tasks) in
    let validation =
      filter_by unneeded (filter_by (λ t. t.is_validation) (filter_by is_unstarted tasks)) in
    omega (
      arith,
      tally-append weight annotation validation,
      tally-deleted weight (annotation_started tasks) unneeded tasks
          (λ v. ap not (any_started v tasks)),
    )

-- The items of the dict for one kind of task.
abbrev pub items_of : Bool → PagesInWork → List FileInWork
items_of validation work = elim (if validation then work.validation else work.annotation) [
  | none ↦ []
  | some items ↦ items
]

-- How often the items hold a page of a file.
abbrev pub in_work : ℕ → ℕ → List FileInWork → ℕ
in_work id page [] = 0
in_work id page (item ∷ items) =
    (if item.file_id == id then count page item.pages_number else 0) + in_work id page items

-- How often a task of the kind holds the page.
abbrev pub held_pages : Bool → ℕ → ℕ → JobTask → ℕ
held_pages validation id page t =
    if (if validation then t.is_validation else not t.is_validation)
    then if t.file_id == id then count page t.pages else 0
    else 0

in_work-append :
    (id page : ℕ) (xs ys : List FileInWork)
    → in_work id page (xs ++ ys) ≡ in_work id page xs + in_work id page ys
in_work-append id page [] ys = omega arith
in_work-append id page (x ∷ xs) ys = omega (arith, in_work-append id page xs ys)

-- The items under a key; an absent key holds none.
abbrev present : Option (List FileInWork) → List FileInWork
present none = []
present (some items) = items

append_in_work_lem :
    (id page : ℕ) (old : Option (List FileInWork)) (item : FileInWork)
    → in_work id page (present (append_in_work old item))
      ≡ in_work id page (present old)
        + (if item.file_id == id then count page item.pages_number else 0)
append_in_work_lem id page none item = omega arith
append_in_work_lem id page (some items) item =
    omega (arith, in_work-append id page items (item ∷ []))

add_in_work_lem :
    (validation : Bool) (id page : ℕ) (work : PagesInWork) (t : JobTask)
    → in_work id page (items_of validation (add_in_work work t))
      ≡ in_work id page (items_of validation work) + held_pages validation id page t
add_in_work_lem validation id page work t =
    let item : FileInWork = record { file_id = t.file_id; pages_number = t.pages } in
    ground (
      arith,
      append_in_work_lem id page work.annotation item,
      append_in_work_lem id page work.validation item,
    )

add_all_in_work_lem :
    (validation : Bool) (id page : ℕ) (work : PagesInWork) (tasks : List JobTask)
    → in_work id page (items_of validation (add_all_in_work work tasks))
      ≡ in_work id page (items_of validation work) + tally (held_pages validation id page) tasks
unfolding add_all_in_work
add_all_in_work_lem validation id page work [] = omega arith
add_all_in_work_lem validation id page work (t ∷ ts) = omega (
  arith,
  add_all_in_work_lem validation id page (add_in_work work t) ts,
  add_in_work_lem validation id page work t,
)

absent_items :
    (validation : Bool) (id page : ℕ)
    → in_work id page (items_of validation (record { annotation = none; validation = none })) ≡ 0
absent_items true id page = refl
absent_items false id page = refl

-- Python's iteration of a set of tasks: each task of the list once, in any order.
abbrev pub IsIterate : (List JobTask → List JobTask) → Type 0
IsIterate iterate =
    (weight : JobTask → ℕ) (tasks : List JobTask)
    → tally weight (iterate tasks) ≡ tally weight tasks

-- For every kind of task, the pages in work are those of the tasks that are not deleted, as often as
-- these tasks hold them.
pub get_pages_in_work_lem :
    (iterate : List JobTask → List JobTask) (tasks deleted : List JobTask) (validation : Bool)
    (id page : ℕ)
    → IsIterate iterate
    → in_work id page (items_of validation (get_pages_in_work iterate tasks deleted))
      ≡ tally
          (λ t.
            if contains t.id (map (λ d. d.id) deleted) then 0 else held_pages validation id page t)
          tasks
unfolding get_pages_in_work
get_pages_in_work_lem iterate tasks deleted validation id page law =
    let empty : PagesInWork = record { annotation = none; validation = none } in
    let kept = without_tasks tasks deleted in
    omega (
      arith,
      add_all_in_work_lem validation id page empty (iterate kept),
      law (held_pages validation id page) kept,
      tally-without (held_pages validation id page) (λ t. contains t.id (map (λ d. d.id) deleted))
          tasks,
      absent_items validation id page,
    )
