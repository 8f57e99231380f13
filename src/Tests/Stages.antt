-- ===== src/Tests/Stages.antt =====
-- The stages of the distribution on small inputs, and their laws at these inputs.
use badgerdoc.Base.{
  ℕ, ◌≡◌, refl, ◌⊎◌, pos, ◌≤ℤ◌, ◌+ℤ◌, ◌-ℤ◌, ok, some, none, List, [], ◌∷◌, All, sum, arith,
}
use mathlib.Core.List.{Memᴰ}
use badgerdoc.Distribution.Types.{FileItem, IsConsistent, remaining}
use badgerdoc.Distribution.Unassigned.{File, find_unassigned_files}
use badgerdoc.Distribution.Unassigned.Laws.{
  IsValid, to_annotate, to_validate, find_unassigned_files_complete,
  find_unassigned_files-IsConsistent,
}
use badgerdoc.Distribution.Combination.{find_pages_combination}
use badgerdoc.Distribution.Combination.Laws.{
  IsCombination, find_pages_combination_sound, find_pages_combination_complete,
}
use badgerdoc.Distribution.Files.{find_equal_files, find_small_files}
use badgerdoc.Distribution.Files.Laws.{
  IsSelection, IsUnfillable, numbers, find_equal_files_total, find_small_files_total,
}
use badgerdoc.Distribution.Tasks.{create_tasks, tasks_number, chunk_tasks}
use badgerdoc.Distribution.Tasks.Chunks.{IsCut, chunk_tasks-IsCut}
use badgerdoc.Distribution.Tasks.Moves.{IsMoved}
use badgerdoc.Distribution.Tasks.Laws.{create_tasks-IsMoved}
use badgerdoc.Tests.Samples.{Float, file, files, with_pages, files-IsDistinct, files-IsConsistent}
use badgerdoc.Tests.Samples

sixty_four : find_pages_combination (4 ∷ 60 ∷ 3 ∷ []) (pos 63) ≡ some (60 ∷ 3 ∷ [])
unfolding find_pages_combination ◌+ℤ◌ ◌-ℤ◌
sixty_four = refl

find_pages_combination_sound_example : IsCombination (4 ∷ 60 ∷ 3 ∷ []) (pos 63) (60 ∷ 3 ∷ [])
find_pages_combination_sound_example =
    find_pages_combination_sound (4 ∷ 60 ∷ 3 ∷ []) (pos 63) sixty_four

no_combination : find_pages_combination (4 ∷ 60 ∷ 3 ∷ []) (pos 61) ≡ none
unfolding find_pages_combination ◌+ℤ◌ ◌-ℤ◌
no_combination = refl

find_pages_combination_complete_example : ¬ IsCombination (4 ∷ 60 ∷ 3 ∷ []) (pos 61) (60 ∷ [])
find_pages_combination_complete_example =
    find_pages_combination_complete (4 ∷ 60 ∷ 3 ∷ []) (pos 61) no_combination (60 ∷ [])

equal_files :
    find_equal_files files (pos 63)
    ≡ ok (file 8 60 ∷ Samples.partial_file 9 (2 ∷ 5 ∷ 6 ∷ []) 3 ∷ [])
unfolding find_equal_files ◌+ℤ◌ ◌-ℤ◌
equal_files = refl

find_equal_files_total_example :
    (found : List FileItem) × (find_equal_files files (pos 63) ≡ ok found)
    × IsSelection [] files found
    × (((found ≡ []) × IsUnfillable files (pos 63)) ⊎ (pos (sum (numbers found)) ≡ pos 63))
find_equal_files_total_example = find_equal_files_total files (pos 63) files-IsDistinct

find_small_files_total_example :
    (found : List FileItem) × (find_small_files files (pos 30) ≡ ok found)
    × IsSelection [] files found
    × (pos (sum (numbers found)) ≤ℤ pos 30)
find_small_files_total_example =
    find_small_files_total files (pos 30) files-IsDistinct (omega arith)

all_selected : IsSelection [] files files
all_selected = (
  Memᴰ.head refl,
  refl,
  (Memᴰ.tail (Memᴰ.head refl), refl, (Memᴰ.tail (Memᴰ.tail (Memᴰ.head refl)), refl, tt)),
)

create_tasks-IsMoved_example :
    let (tasks, user', files') =
      create_tasks Samples.to_annotate files (with_pages 1 (pos 70)) files in
    IsMoved (sum (numbers files)) (with_pages 1 (pos 70)) files tasks user' files'
create_tasks-IsMoved_example =
    create_tasks-IsMoved Samples.to_annotate [] files (with_pages 1 (pos 70)) files files-IsDistinct
      files-IsConsistent all_selected

abbrev three : List ℕ
three = 1 ∷ 2 ∷ 3 ∷ []

chunk_tasks-IsCut_example :
    let (tasks, left) = chunk_tasks Samples.to_annotate 7 1 (tasks_number three) three in
    IsCut Samples.to_annotate 7 1 three tasks left
chunk_tasks-IsCut_example = chunk_tasks-IsCut Samples.to_annotate 7 1 three

-- Two pages of three are annotated, and none validated.
abbrev half_done : File
half_done = record {
  file_id = 7;
  pages_number = 3;
  distributed_annotating_pages = 1 ∷ 3 ∷ [];
  distributed_validating_pages = [];
}

half_done-IsValid : IsValid half_done
half_done-IsValid = record {
  annotating = record { once = λ page. ground arith; within = λ page h. ground arith };
  validating = record { once = λ page. ground arith; within = λ page h. ground arith };
}

find_unassigned_files_complete_example :
    (remaining 7 2 (find_unassigned_files (half_done ∷ [])).0 ≡ to_annotate 7 2 (half_done ∷ []))
    × (remaining 7 2 (find_unassigned_files (half_done ∷ [])).1 ≡ to_validate 7 2 (half_done ∷ []))
find_unassigned_files_complete_example =
    find_unassigned_files_complete 7 2 (half_done ∷ []) (half_done-IsValid, tt)

find_unassigned_files-IsConsistent_example :
    All IsConsistent (find_unassigned_files (half_done ∷ [])).0
    × All IsConsistent (find_unassigned_files (half_done ∷ [])).1
find_unassigned_files-IsConsistent_example = find_unassigned_files-IsConsistent (half_done ∷ [])
