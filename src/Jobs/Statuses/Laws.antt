-- ===== src/Jobs/Statuses/Laws.antt =====
-- What set_task_statuses makes ready, against the pages that are annotated.
use badgerdoc.Base.{
  ℕ, ◌+◌, ◌*◌, ◌≡◌, ◌≤◌, refl, Bool, true, false, not, ◌||◌, ◌&&◌, List, [], ◌∷◌, if◌then◌else◌,
  ◌==◌, count, arith, Bool-cases, inl, inr,
}
use badgerdoc.Distribution.Run.{ValidationType}
use badgerdoc.Jobs.{JobTask}
use badgerdoc.Jobs.Laws.{tally}
use badgerdoc.Jobs.Statuses.{
  Counter, counter_get, counter_add, count_pages, counter_take, take_pages_from, AnnotatedPages,
  set_counter, is_finished, is_pending, finished_annotations, all_finished, is_validation_only,
  make_ready, set_task_status, set_each_status, set_task_statuses,
}

get-counter_add :
    (page key : ℕ) (counter : Counter)
    → counter_get page (counter_add key counter)
      ≡ counter_get page counter + (if key == page then 1 else 0)
get-counter_add page key [] = ground arith
get-counter_add page key ((k, n) ∷ items) = ground (arith, get-counter_add page key items)

get-count_pages :
    (page : ℕ) (counter : Counter) (pages : List ℕ)
    → counter_get page (count_pages counter pages) ≡ counter_get page counter + count page pages
unfolding count_pages
get-count_pages page counter [] = omega arith
get-count_pages page counter (p ∷ pages) =
    omega
      (arith, get-count_pages page (counter_add p counter) pages, get-counter_add page p counter)

get-counter_take :
    (page key : ℕ) (counter : Counter)
    → counter_get page (counter_take key counter) ≤ counter_get page counter
get-counter_take page key [] = omega arith
get-counter_take page key ((k, n) ∷ items) = ground (arith, get-counter_take page key items)

get-take_pages_from :
    (page : ℕ) (counter : Counter) (pages : List ℕ)
    → counter_get page (take_pages_from counter pages) ≤ counter_get page counter
unfolding take_pages_from
get-take_pages_from page counter [] = omega arith
get-take_pages_from page counter (p ∷ pages) = omega (
  arith,
  get-take_pages_from page (counter_take p counter) pages,
  get-counter_take page p counter,
)

-- How often the finished annotation tasks hold page `page` of file `file`.
abbrev pub finished_pages : ℕ → ℕ → List JobTask → ℕ
finished_pages file page = tally (λ t.
    if not t.is_validation && is_finished t.status
    then if t.file_id == file then count page t.pages else 0
    else 0)

get-set_counter :
    (c : Bool) (file page key : ℕ) (pages : List ℕ) (annotated : AnnotatedPages)
    → counter_get page (
        (if c then set_counter key (count_pages (annotated key) pages) annotated else annotated)
          file)
      ≡ counter_get page (annotated file)
        + (if c then if key == file then count page pages else 0 else 0)
get-set_counter false file page key pages annotated = omega arith
get-set_counter true file page key pages annotated =
    ground (arith, get-count_pages page (annotated key) pages)

get-finished_annotations :
    (file page : ℕ) (annotated : AnnotatedPages) (tasks : List JobTask)
    → counter_get page (finished_annotations annotated tasks file)
      ≡ counter_get page (annotated file) + finished_pages file page tasks
unfolding finished_annotations
get-finished_annotations file page annotated [] = omega arith
get-finished_annotations file page annotated (t ∷ ts) =
    let c = not t.is_validation && is_finished t.status in
    omega (
      arith,
      get-finished_annotations file page
          (if c
            then set_counter t.file_id (count_pages (annotated t.file_id) t.pages) annotated
            else annotated)
          ts,
      get-set_counter c file page t.file_id t.pages annotated,
    )

all_finished_lem :
    (coverage page : ℕ) (finished items : Counter)
    → all_finished coverage finished items ≡ true
    → counter_get page items * coverage ≤ counter_get page finished
all_finished_lem coverage page finished [] h = omega arith
all_finished_lem coverage page finished ((p, n) ∷ items) h =
    let rest = all_finished_lem coverage page finished items in
    elim (Bool-cases (p == page)) [
      | inl same ↦ rw same (ground (arith, h, same))
      | inr other ↦ rw other (ground (arith, h, rest))
    ]

-- What set_task_statuses makes of a task: nothing but a pending status changes; a pending task for
-- annotation becomes ready, and with `direct` one for validation too; without it, a pending task for
-- validation becomes ready if it is accepted, and then each of its pages is finished `coverage` times
-- for each time that the task holds it.
pub record IsUpdated (direct : Bool) (coverage : ℕ) (finished : ℕ → ℕ → ℕ) (t t' : JobTask)
    : Type 0 where
  pub accepted : Bool
  pub updated : t' ≡ (
      if is_pending t.status && (not t.is_validation || direct || accepted)
      then make_ready t
      else t)
  pub annotated :
      (page : ℕ) → (if accepted then count page t.pages * coverage else 0) ≤ finished t.file_id page

IsBelow : AnnotatedPages → (ℕ → ℕ → ℕ) → Type 0
IsBelow annotated finished =
    (file page : ℕ) → counter_get page (annotated file) ≤ finished file page

set_counter-IsBelow :
    (annotated : AnnotatedPages) (finished : ℕ → ℕ → ℕ) (key : ℕ) (pages : List ℕ)
    → IsBelow annotated finished
    → IsBelow (set_counter key (take_pages_from (annotated key) pages) annotated) finished
unfolding IsBelow
set_counter-IsBelow annotated finished key pages h file page =
    ground (arith, get-take_pages_from page (annotated key) pages, h file page)

enough_annotated :
    (coverage : ℕ) (annotated : AnnotatedPages) (finished : ℕ → ℕ → ℕ) (t : JobTask)
    → IsBelow annotated finished
    → all_finished coverage (annotated t.file_id) (count_pages [] t.pages) ≡ true
    → (page : ℕ) → count page t.pages * coverage ≤ finished t.file_id page
unfolding IsBelow
enough_annotated coverage annotated finished t h enough page =
    let counted : counter_get page (count_pages [] t.pages) ≡ count page t.pages =
      omega (arith, get-count_pages page [] t.pages) in
    let reached =
      all_finished_lem coverage page (annotated t.file_id) (count_pages [] t.pages) enough in
    omega (arith, rw counted at reached, h t.file_id page)

set_task_status-IsUpdated :
    (kind : ValidationType) (coverage : ℕ) (annotated : AnnotatedPages) (finished : ℕ → ℕ → ℕ)
    (t : JobTask)
    → IsBelow annotated finished
    → let (annotated', t') = set_task_status kind coverage annotated t in
      IsUpdated (is_validation_only kind) coverage finished t t' × IsBelow annotated' finished
unfolding set_task_status
set_task_status-IsUpdated kind coverage annotated finished t h =
    elim (Bool-cases (is_pending t.status)) [
      | inr settled ↦ rw settled (
        record { accepted = false; updated = rw settled refl; annotated = λ page. ground arith },
        h,
      )
      | inl pending ↦
          rw pending (elim (Bool-cases (not t.is_validation || is_validation_only kind)) [
            | inl direct ↦ rw direct (
              record {
                accepted = false;
                updated = ground (arith, pending, direct);
                annotated = λ page. ground arith;
              },
              h,
            )
            | inr checked ↦
                rw checked
                  (elim (Bool-cases
                    (all_finished coverage (annotated t.file_id) (count_pages [] t.pages))) [
                      | inl enough ↦ rw enough (
                        record {
                          accepted = true;
                          updated = ground (arith, pending, checked);
                          annotated = enough_annotated coverage annotated finished t h enough;
                        },
                        set_counter-IsBelow annotated finished t.file_id t.pages h,
                      )
                      | inr less ↦ rw less (
                        record {
                          accepted = false;
                          updated = ground (arith, pending, checked);
                          annotated = λ page. ground arith;
                        },
                        h,
                      )
                    ])
          ])
    ]

-- The tasks one by one.
abbrev pub AreUpdated : Bool → ℕ → (ℕ → ℕ → ℕ) → List JobTask → List JobTask → Type 0
AreUpdated direct coverage finished [] [] = Unit
AreUpdated direct coverage finished [] (t' ∷ tasks') = ⊥
AreUpdated direct coverage finished (t ∷ tasks) [] = ⊥
AreUpdated direct coverage finished (t ∷ tasks) (t' ∷ tasks') =
    IsUpdated direct coverage finished t t' × AreUpdated direct coverage finished tasks tasks'

set_each_status-AreUpdated :
    (kind : ValidationType) (coverage : ℕ) (annotated : AnnotatedPages) (finished : ℕ → ℕ → ℕ)
    (tasks : List JobTask)
    → IsBelow annotated finished
    → AreUpdated
        (is_validation_only kind)
        coverage
        finished
        tasks
        (set_each_status kind coverage annotated tasks)
unfolding set_each_status
set_each_status-AreUpdated kind coverage annotated finished [] h = tt
set_each_status-AreUpdated kind coverage annotated finished (t ∷ ts) h =
    let (one, below) = set_task_status-IsUpdated kind coverage annotated finished t h in
    (
      one,
      set_each_status-AreUpdated kind coverage (set_task_status kind coverage annotated t).0
          finished ts below,
    )

-- set_task_statuses changes nothing but the status of pending tasks. A pending task for annotation
-- becomes ready, and of a job with `validation_only` every pending task. Any other pending task for
-- validation becomes ready only if finished annotation tasks hold each of its pages `coverage` times for
-- each time that the task holds it.
pub set_task_statuses-AreUpdated :
    (kind : ValidationType) (coverage : ℕ) (tasks : List JobTask)
    → AreUpdated
        (is_validation_only kind)
        coverage
        (λ file page. finished_pages file page tasks)
        tasks
        (set_task_statuses kind coverage tasks)
unfolding set_task_statuses IsBelow
set_task_statuses-AreUpdated kind coverage tasks =
    set_each_status-AreUpdated kind coverage (finished_annotations (λ _. []) tasks)
      (λ file page. finished_pages file page tasks) tasks
      (λ file page. omega (arith, get-finished_annotations file page (λ _. []) tasks))
