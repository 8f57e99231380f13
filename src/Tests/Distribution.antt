-- ===== src/Tests/Distribution.antt =====
-- Whole distributions of small inputs, and the laws of distribute_tasks and its stages at these inputs.
use badgerdoc.Base.{
  leb, ℕ, ◌≡◌, refl, pos, negsuc, ok, List, [], ◌∷◌, contains, if◌then◌else◌, arith,
}
use badgerdoc.Distribution.Types.{new_task, covered_by, User, Task}
use badgerdoc.Distribution.Annotated.{AnnotatedFilesPages, annotates, find_annotated_pages}
use badgerdoc.Distribution.Annotated.Laws.{find_annotated_pages-annotates}
use badgerdoc.Distribution.Loads.{IsNonneg}
use badgerdoc.Distribution.Whole.Laws.{IsWholeStage, distribute_whole_files_total}
use badgerdoc.Distribution.Partial.{distribute_annotation_partial_files}
use badgerdoc.Distribution.Partial.Laws.{IsHandedOut, distribute_annotation_partial_files_total}
use badgerdoc.Distribution.Partial.Overdrawn.{
  IsAllFor, distribute_annotation_partial_files-IsAllFor,
}
use badgerdoc.Distribution.Validation.{distribute_validation_partial_files}
use badgerdoc.Distribution.Validation.Sets.{IsToSet}
use badgerdoc.Distribution.Validation.Laws.{
  IsValidated, distribute_validation_partial_files-IsValidated,
}
use badgerdoc.Distribution.Run.{distribute_tasks}
use badgerdoc.Distribution.Run.Cross.{self_checked, distribute_tasks-find_annotated_pages}
use badgerdoc.Distribution.Run.Annotation.{IsAnnotated, distribute_tasks-IsAnnotated}
use badgerdoc.Distribution.Run.Validation.{IsCrossChecked, distribute_tasks-IsCrossChecked}
use badgerdoc.Tests.Fractions.{fractions}
use badgerdoc.Tests.Samples.{
  Float, file, files, with_pages, team, team_loaded, to_annotate, to_validate, files-IsDistinct,
  files-IsOnce, files-IsConsistent,
}
use badgerdoc.Tests.Loads.{team_calculated}

-- The order in which the tests iterate a set: by the last occurrence in the list.
abbrev dedup : List ℕ → List ℕ
dedup [] = []
dedup (x ∷ xs) = let rest = dedup xs in if contains x xs then rest else x ∷ rest

dedup-IsToSet : IsToSet dedup
dedup-IsToSet page [] = refl
dedup-IsToSet page (x ∷ xs) = ground (arith, dedup-IsToSet page xs)

-- User 1 annotates two pages of file 9, user 2 the only pages of file 7.
abbrev annotated : AnnotatedFilesPages
annotated =
    (1, record { file_id = 9; pages = 2 ∷ 5 ∷ [] } ∷ [])
    ∷ (2, record { file_id = 7; pages = 1 ∷ 2 ∷ 3 ∷ 4 ∷ [] } ∷ [])
    ∷ []

team-IsNonneg : IsNonneg team_loaded
team-IsNonneg = (omega arith, (omega arith, (omega arith, tt)))

distribute_tasks-IsAnnotated_example :
    (tasks : List Task) × (distribute_tasks fractions 9 dedup [] files team to_annotate ≡ ok tasks)
    × IsAnnotated files team_loaded tasks
distribute_tasks-IsAnnotated_example =
    distribute_tasks-IsAnnotated fractions 9 dedup [] files team team_loaded to_annotate
      team_calculated team-IsNonneg files-IsDistinct files-IsConsistent refl

distribute_tasks-IsCrossChecked_example :
    (tasks : List Task) × (distribute_tasks fractions 9 dedup annotated files team to_validate
      ≡ ok tasks)
    × IsCrossChecked annotated files team_loaded tasks
distribute_tasks-IsCrossChecked_example =
    distribute_tasks-IsCrossChecked fractions 9 dedup annotated files team team_loaded to_validate
      dedup-IsToSet team_calculated team-IsNonneg files-IsDistinct files-IsOnce files-IsConsistent
      refl

distribute_validation_partial_files-IsValidated_example :
    IsValidated annotated dedup files team_loaded
      (distribute_validation_partial_files dedup annotated files team_loaded to_validate)
distribute_validation_partial_files-IsValidated_example =
    distribute_validation_partial_files-IsValidated dedup dedup-IsToSet annotated files team_loaded
      to_validate files-IsDistinct

distribute_annotation_partial_files_total_example : IsHandedOut to_annotate files team_loaded
distribute_annotation_partial_files_total_example =
    distribute_annotation_partial_files_total to_annotate files team_loaded files-IsConsistent
      team-IsNonneg (omega arith)

distribute_whole_files_total_example : IsWholeStage annotated to_annotate files team_loaded
distribute_whole_files_total_example =
    distribute_whole_files_total annotated to_annotate files team_loaded files-IsDistinct
      files-IsConsistent team-IsNonneg

-- The loads that ten equal users have for 15 pages, in part: the first one is below zero.
abbrev overdrawn : List (User Float)
overdrawn = with_pages 1 (negsuc 2) ∷ with_pages 2 (pos 9) ∷ with_pages 3 (pos 9) ∷ []

distribute_annotation_partial_files-IsAllFor_example :
    (tasks : List Task) × (distribute_annotation_partial_files to_annotate
        (file 7 15 ∷ [])
        overdrawn
      ≡ ok tasks)
    × IsAllFor 1 (file 7 15 ∷ []) tasks
distribute_annotation_partial_files-IsAllFor_example =
    distribute_annotation_partial_files-IsAllFor to_annotate (file 7 15 ∷ [])
      (with_pages 1 (negsuc 2)) (with_pages 2 (pos 9) ∷ with_pages 3 (pos 9) ∷ []) (omega arith)
      (refl, tt)

-- Two tasks of user 1 for one file.
abbrev two_tasks : List Task
two_tasks = new_task to_annotate 9 1 (2 ∷ []) ∷ new_task to_annotate 9 1 (5 ∷ []) ∷ []

find_annotated_pages-annotates_example :
    annotates (find_annotated_pages two_tasks) 1 9 5 ≡ leb 1 (covered_by 1 9 5 two_tasks)
find_annotated_pages-annotates_example = find_annotated_pages-annotates two_tasks 1 9 5

distribute_tasks-find_annotated_pages_example :
    (tasks : List Task) × (distribute_tasks fractions 9 dedup
        (find_annotated_pages two_tasks)
        files
        team
        to_validate
      ≡ ok tasks)
    × ((user id page : ℕ) → self_checked two_tasks tasks user id page ≡ 0)
distribute_tasks-find_annotated_pages_example =
    distribute_tasks-find_annotated_pages fractions 9 dedup two_tasks files team team_loaded
      to_validate dedup-IsToSet team_calculated team-IsNonneg files-IsDistinct files-IsOnce
      files-IsConsistent refl
