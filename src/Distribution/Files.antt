-- ===== src/Distribution/Files.antt =====
-- annotation/annotation/distribution/main.py: find_files_for_task, find_equal_files and
-- find_small_files, which choose whole files for one user by their page numbers.
pub mod Laws
use badgerdoc.Base.{
  ℕ, ◌-◌, ℤ, pos, ◌-ℤ◌, leb_ℤ, Call, ok, raises, stop_iteration, ◌>>=◌, Option, none, some, List,
  [], ◌∷◌, ◌++◌, if◌then◌else◌, ◌==◌, ◌&&◌, not, contains,
}
use badgerdoc.Distribution.Types.{FileItem}
use badgerdoc.Distribution.Combination.{find_pages_combination}

-- `next(x for x in files if …)`, which raises StopIteration if there is none.
next_file : List FileItem → ℕ → List ℕ → Call FileItem
next_file [] pages distributed = raises stop_iteration
next_file (x ∷ files) pages distributed =
    if x.pages_number == pages && not (contains x.file_id distributed)
    then ok x
    else next_file files pages distributed

find_files_from : List FileItem → List ℕ → List ℕ → Call (List FileItem)
unfolding next_file
find_files_from files distributed [] = ok []
find_files_from files distributed (pages ∷ pages_for_task) = do
  file ← next_file files pages distributed
  rest ← find_files_from files (distributed ++ file.file_id ∷ []) pages_for_task
  ok (file ∷ rest)

unfoldable pub find_files_for_task : List FileItem → List ℕ → Call (List FileItem)
unfolding find_files_from
find_files_for_task files pages_for_task = find_files_from files [] pages_for_task

-- `[x["pages_number"] for x in files if x["pages_number"]]`
abbrev pub files_pages : List FileItem → List ℕ
files_pages [] = []
files_pages (x ∷ files) =
    let rest = files_pages files in if x.pages_number == 0 then rest else x.pages_number ∷ rest

unfoldable pub find_equal_files : List FileItem → ℤ → Call (List FileItem)
unfolding find_files_for_task find_pages_combination
find_equal_files files user_pages =
    find_files_for_task files (elim (find_pages_combination (files_pages files) user_pages) [
      | some found ↦ found
      | none ↦ []
    ])

-- The loop of find_small_files.
small_pages : ℤ → List ℕ → List ℕ
small_pages user_pages [] = []
small_pages user_pages (pages ∷ files_pages) =
    let fits = leb_ℤ (pos pages) user_pages in
    let rest = small_pages (if fits then user_pages -ℤ pos pages else user_pages) files_pages in
    if fits then pages ∷ rest else rest

unfoldable pub find_small_files : List FileItem → ℤ → Call (List FileItem)
unfolding find_files_for_task small_pages ◌-ℤ◌
find_small_files files user_pages =
    find_files_for_task files (small_pages user_pages (files_pages files))
