-- ===== src/Distribution/Unassigned.antt =====
-- annotation/annotation/distribution/main.py: find_unassigned_files and its helpers, which turn the
-- pages recorded as distributed into the pages that are left for each kind of task.
pub mod Pigeonhole
pub mod Laws
use badgerdoc.Base.{
  ℕ, ◌+◌, ◌≡◌, Bool, true, not, ◌&&◌, Option, none, some, List, [], ◌∷◌, ◌++◌, ◌==◌, if◌then◌else◌,
  contains, range_from, filter_by, length,
}
use badgerdoc.Distribution.Types.{FileItem}

-- The columns of models.File that the distribution reads.
pub record File : Type 0 where
  pub file_id : ℕ
  pub pages_number : ℕ
  pub distributed_annotating_pages : List ℕ
  pub distributed_validating_pages : List ℕ

unfoldable pub find_unassigned_pages : List ℕ → ℕ → List ℕ
find_unassigned_pages assigned_pages pages_amount =
    filter_by (λ page. not (contains page assigned_pages)) (range_from 1 pages_amount)

-- An absent list and an empty list leave the key out.
unfoldable pub add_unassigned_file : List FileItem → ℕ → ℕ → Option (List ℕ) → List FileItem
add_unassigned_file files id number unassigned =
    files
    ++ record {
      file_id = id;
      pages_number = number;
      unassigned_pages = elim unassigned [ some (page ∷ pages) ↦ some (page ∷ pages) | _ ↦ none ];
    }
      ∷ []

unfoldable pub check_file_distribution : List FileItem → List ℕ → ℕ → ℕ → List FileItem
unfolding find_unassigned_pages add_unassigned_file
check_file_distribution files distributed id number =
    if length distributed == 0
    then add_unassigned_file files id number none
    else let unassigned = find_unassigned_pages distributed number in
      add_unassigned_file files id (length unassigned) (some unassigned)

-- The loop body: the lists of files to annotate and to validate.
visit_file : List FileItem × List FileItem → File → List FileItem × List FileItem
unfolding check_file_distribution
visit_file (annotation, validation) f =
    if (length f.distributed_annotating_pages == f.pages_number)
      && (length f.distributed_validating_pages == f.pages_number)
    then (annotation, validation)
    else (
      check_file_distribution annotation f.distributed_annotating_pages f.file_id f.pages_number,
      check_file_distribution validation f.distributed_validating_pages f.file_id f.pages_number,
    )

visit_files : List FileItem × List FileItem → List File → List FileItem × List FileItem
unfolding visit_file
visit_files found [] = found
visit_files found (f ∷ files) = visit_files (visit_file found f) files

unfoldable pub find_unassigned_files : List File → List FileItem × List FileItem
unfolding visit_files
find_unassigned_files files = visit_files ([], []) files
