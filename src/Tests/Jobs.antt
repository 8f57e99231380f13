-- ===== src/Tests/Jobs.antt =====
-- The tasks of a small job at a new distribution.
use badgerdoc.Base.{ℕ, ◌≡◌, refl, true, false, List, [], ◌∷◌, Bool, if◌then◌else◌, arith, some}
use badgerdoc.Distribution.Types.{TaskStatus}
use badgerdoc.Jobs.{JobTask, get_tasks_to_delete, get_pages_in_work}
use badgerdoc.Jobs.Laws.{
  tally, annotation_started, is_replaced, items_of, in_work, held_pages, IsIterate,
  get_tasks_to_delete_lem,
}
use badgerdoc.Distribution.Run.{ValidationType}
use badgerdoc.Jobs.Statuses.{set_task_statuses}
use badgerdoc.Jobs.Statuses.Laws.{AreUpdated, finished_pages, set_task_statuses-AreUpdated}
use badgerdoc.Jobs.Kept.{IsDistinctTasks, get_pages_in_work-get_tasks_to_delete}

abbrev job_task : ℕ → ℕ → Bool → TaskStatus → JobTask
job_task id file validation status = record {
  id = id;
  file_id = file;
  pages = 1 ∷ 2 ∷ [];
  is_validation = validation;
  status = status;
}

-- An annotation task of file 7 is started, one of file 8 is not, and file 8 waits for validation.
abbrev job_tasks : List JobTask
job_tasks =
    job_task 1 7 false TaskStatus.in_progress
    ∷ job_task 2 8 false TaskStatus.ready
    ∷ job_task 3 8 true TaskStatus.pending
    ∷ []

-- The validation task of file 8 is not deleted, though no annotation of file 8 is started.
deleted_tasks : get_tasks_to_delete job_tasks ≡ job_task 2 8 false TaskStatus.ready ∷ []
unfolding get_tasks_to_delete
deleted_tasks = refl

kept_pages : get_pages_in_work (λ tasks. tasks) job_tasks (get_tasks_to_delete job_tasks) ≡ record {
  annotation = some (record { file_id = 7; pages_number = 1 ∷ 2 ∷ [] } ∷ []);
  validation = some (record { file_id = 8; pages_number = 1 ∷ 2 ∷ [] } ∷ []);
}
unfolding get_tasks_to_delete get_pages_in_work
kept_pages = refl

get_tasks_to_delete_lem_example :
    tally (λ t. t.id) (get_tasks_to_delete job_tasks)
    ≡ tally (λ t. if is_replaced (annotation_started job_tasks) t then t.id else 0) job_tasks
get_tasks_to_delete_lem_example = get_tasks_to_delete_lem (λ t. t.id) job_tasks

job_tasks-IsDistinctTasks : IsDistinctTasks job_tasks
job_tasks-IsDistinctTasks id = ground arith

same-IsIterate : IsIterate (λ tasks. tasks)
same-IsIterate weight tasks = refl

get_pages_in_work-get_tasks_to_delete_example :
    in_work 8 1
      (items_of true (get_pages_in_work (λ tasks. tasks) job_tasks (get_tasks_to_delete job_tasks)))
    ≡ tally
        (λ t. if is_replaced (annotation_started job_tasks) t then 0 else held_pages true 8 1 t)
        job_tasks
get_pages_in_work-get_tasks_to_delete_example =
    get_pages_in_work-get_tasks_to_delete (λ tasks. tasks) job_tasks true 8 1 same-IsIterate
      job_tasks-IsDistinctTasks

-- File 7 is annotated and waits for validation; file 8 is not annotated.
abbrev annotated_job : List JobTask
annotated_job =
    job_task 1 7 false TaskStatus.finished
    ∷ job_task 2 8 false TaskStatus.pending
    ∷ job_task 3 7 true TaskStatus.pending
    ∷ job_task 4 8 true TaskStatus.pending
    ∷ []

annotated_job_statuses :
    set_task_statuses ValidationType.hierarchical 1 annotated_job
    ≡ job_task 1 7 false TaskStatus.finished
      ∷ job_task 2 8 false TaskStatus.ready
      ∷ job_task 3 7 true TaskStatus.ready
      ∷ job_task 4 8 true TaskStatus.pending
      ∷ []
unfolding set_task_statuses
annotated_job_statuses = refl

set_task_statuses-AreUpdated_example :
    AreUpdated false 1
      (λ file page. finished_pages file page annotated_job)
      annotated_job
      (set_task_statuses ValidationType.hierarchical 1 annotated_job)
set_task_statuses-AreUpdated_example =
    set_task_statuses-AreUpdated ValidationType.hierarchical 1 annotated_job
