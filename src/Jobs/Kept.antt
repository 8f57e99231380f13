-- ===== src/Jobs/Kept.antt =====
-- A new distribution deletes some tasks and keeps the pages of all others in work.
use mathlib.Core.List.{Memᴰ}
use badgerdoc.Base.{
  ℕ, ◌+◌, ◌≡◌, ◌≤◌, ◌<◌, leb, refl, ap, ap₂, Bool, true, false, List, [], ◌∷◌, if◌then◌else◌, ◌==◌,
  contains, map, arith, ◌∙◌,
}
use badgerdoc.Jobs.{JobTask, get_tasks_to_delete, get_pages_in_work}
use badgerdoc.Jobs.Laws.{
  tally, annotation_started, is_replaced, items_of, in_work, held_pages, IsIterate,
  get_tasks_to_delete_lem, get_pages_in_work_lem,
}

-- How many tasks have this id.
abbrev pub same_id : ℕ → List JobTask → ℕ
same_id id = tally (λ t. if t.id == id then 1 else 0)

contains-same_id :
    (id : ℕ) (tasks : List JobTask) → contains id (map (λ t. t.id) tasks) ≡ leb 1 (same_id id tasks)
contains-same_id id [] = refl
contains-same_id id (t ∷ ts) = ground (arith, contains-same_id id ts)

-- Of tasks with distinct ids, those that pass a test and have the id of a task are that one or none.
tally-absent :
    (test : JobTask → Bool) (id : ℕ) (tasks : List JobTask)
    → same_id id tasks ≡ 0
    → tally (λ t. if test t then if t.id == id then 1 else 0 else 0) tasks ≡ 0
tally-absent test id [] h = refl
tally-absent test id (t ∷ ts) h = ground (arith, tally-absent test id ts)

same_id-mem : (t : JobTask) (tasks : List JobTask) → Memᴰ t tasks → 0 < same_id t.id tasks
same_id-mem t [] m = elim m [ ]
same_id-mem t (u ∷ tasks) (Memᴰ.head e) = ground (arith, ap (λ (x : JobTask). x.id) e)
same_id-mem t (u ∷ tasks) (Memᴰ.tail m) = ground (arith, same_id-mem t tasks m)

tally-chosen :
    (test : JobTask → Bool) (t : JobTask) (tasks : List JobTask)
    → same_id t.id tasks ≤ 1
    → Memᴰ t tasks
    → tally (λ u. if test u then if u.id == t.id then 1 else 0 else 0) tasks
      ≡ (if test t then 1 else 0)
tally-chosen test t [] d m = elim m [ ]
tally-chosen test t (u ∷ tasks) d (Memᴰ.head e) =
    ground (arith, ap (λ (x : JobTask). x.id) e, ap test e, tally-absent test t.id tasks)
tally-chosen test t (u ∷ tasks) d (Memᴰ.tail m) =
    ground (arith, tally-chosen test t tasks, m, same_id-mem t tasks m)

tally-cong :
    (f g : JobTask → ℕ) (tasks : List JobTask)
    → ((t : JobTask) → Memᴰ t tasks → f t ≡ g t)
    → tally f tasks ≡ tally g tasks
tally-cong f g [] h = refl
tally-cong f g (t ∷ ts) h =
    ap₂ (λ a b. a + b) (h t (Memᴰ.head refl)) (tally-cong f g ts (λ u m. h u (Memᴰ.tail m)))

-- No two tasks have the same id.
abbrev pub IsDistinctTasks : List JobTask → Type 0
IsDistinctTasks tasks = (id : ℕ) → same_id id tasks ≤ 1

one_if : (b : Bool) → leb 1 (if b then 1 else 0) ≡ b
one_if true = refl
one_if false = refl

deleted-mem :
    (tasks : List JobTask) (t : JobTask)
    → IsDistinctTasks tasks
    → Memᴰ t tasks
    → contains t.id (map (λ d. d.id) (get_tasks_to_delete tasks))
      ≡ is_replaced (annotation_started tasks) t
deleted-mem tasks t d m =
    let started = annotation_started tasks in
    let deleted = get_tasks_to_delete tasks in
    let a = contains-same_id t.id deleted in
    let b = get_tasks_to_delete_lem (λ u. if u.id == t.id then 1 else 0) tasks in
    let c = tally-chosen (is_replaced started) t tasks (d t.id) m in
    a ∙ ap (leb 1) (b ∙ c) ∙ one_if (is_replaced started t)

-- Of tasks with distinct ids, those that the distribution does not delete stay in work with all their
-- pages: for every kind of task, the pages in work are those of the tasks that are started, and of the
-- validation tasks once an annotation task of the job is started.
pub get_pages_in_work-get_tasks_to_delete :
    (iterate : List JobTask → List JobTask) (tasks : List JobTask) (validation : Bool) (id page : ℕ)
    → IsIterate iterate
    → IsDistinctTasks tasks
    → in_work id page
        (items_of validation (get_pages_in_work iterate tasks (get_tasks_to_delete tasks)))
      ≡ tally
          (λ t.
            if is_replaced (annotation_started tasks) t then 0 else held_pages validation id page t)
          tasks
get_pages_in_work-get_tasks_to_delete iterate tasks validation id page law d =
    get_pages_in_work_lem iterate tasks (get_tasks_to_delete tasks) validation id page law
    ∙ tally-cong _ _ tasks (λ t m.
      ap (λ b. if b then 0 else held_pages validation id page t) (deleted-mem tasks t d m))
