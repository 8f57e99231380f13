-- ===== src/Distribution/Run/Cross.antt =====
-- Cross-validation: distribute_tasks for validation with the dict that find_annotated_pages makes of the
-- annotation tasks, as distribute calls them one after the other.
use badgerdoc.Base.{ℕ, ◌≡◌, true, ok, leb, List, if◌then◌else◌, All}
use badgerdoc.Distribution.Types.{
  FileItem, User, Settings, Task, IsDistinct, IsOnce, IsConsistent, covered_by,
}
use badgerdoc.Distribution.Annotated.{find_annotated_pages}
use badgerdoc.Distribution.Annotated.Laws.{find_annotated_pages-annotates}
use badgerdoc.Distribution.Loads.{IsNonneg}
use badgerdoc.Distribution.Load.{FloatOps, calculate_users_load}
use badgerdoc.Distribution.Validation.Sets.{IsToSet}
use badgerdoc.Distribution.Run.{distribute_tasks}
use badgerdoc.Distribution.Run.Validation.{distribute_tasks-IsCrossChecked}

-- How often the user validates a page of the file that is in an annotation task of the same user.
abbrev pub self_checked : List Task → List Task → ℕ → ℕ → ℕ → ℕ
self_checked annotation_tasks validation_tasks user id page =
    if leb 1 (covered_by user id page annotation_tasks)
    then covered_by user id page validation_tasks
    else 0

module _ (ops : FloatOps) where
  open ops use {Float}

  -- Whatever the annotation tasks are: if calculate_users_load returns loads of which none is negative,
  -- then for files with distinct ids and consistent numbers that offer no page twice distribute_tasks
  -- returns validation tasks in which no user has a page that an annotation task gives to the same user.
  pub distribute_tasks-find_annotated_pages :
      (fuel : ℕ) (to_set : List ℕ → List ℕ) (annotation_tasks : List Task) (files : List FileItem)
      (users loaded : List (User Float)) (settings : Settings)
      → IsToSet to_set
      → calculate_users_load ops fuel files users 1 ≡ ok loaded
      → IsNonneg loaded
      → IsDistinct files
      → IsOnce files
      → All IsConsistent files
      → settings.is_validation ≡ true
      → (tasks : List Task) × (distribute_tasks ops fuel to_set
            (find_annotated_pages annotation_tasks)
            files
            users
            settings
          ≡ ok tasks)
        × ((user id page : ℕ) → self_checked annotation_tasks tasks user id page ≡ 0)
  distribute_tasks-find_annotated_pages fuel to_set annotation_tasks files users loaded settings law
        calculated n d once c kind =
      let annotated = find_annotated_pages annotation_tasks in
      let (tasks, returned, checked) =
        distribute_tasks-IsCrossChecked ops fuel to_set annotated files users loaded settings law
          calculated n d once c kind in
      (
        tasks,
        returned,
        λ user id page.
            rw (← find_annotated_pages-annotates annotation_tasks user id page)
              (checked.foreign user id page),
      )
