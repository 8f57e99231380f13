-- ===== src/Distribution/Combination.antt =====
-- annotation/annotation/distribution/main.py: find_pages_combination, a search with backtracking
-- that leaves by an exception at the first combination of page numbers that sums to a user's load.
pub mod Laws
use badgerdoc.Base.{
  ℕ, ◌+◌, ℤ, pos, ◌==ℤ◌, ltb_ℤ, Option, none, some, List, [], ◌∷◌, ◌++◌, if◌then◌else◌,
}

-- The two tests at the head of find_pages_combination, before its loop. `some` is
-- FilesForUserFoundException with what was put into `pages_for_task`.
try_combination : ℤ → List ℕ → ℕ → Option (List ℕ) → Option (List ℕ)
try_combination user_pages combinations combinations_sum loop =
    if pos combinations_sum ==ℤ user_pages
    then some combinations
    else if ltb_ℤ user_pages (pos combinations_sum)
    then none
    else loop

-- The loop over `files_pages`; `files_pages[index + 1:]` is the rest of the list.
loop_combinations : ℤ → List ℕ → ℕ → List ℕ → Option (List ℕ)
unfolding try_combination
loop_combinations user_pages combinations combinations_sum [] = none
loop_combinations user_pages combinations combinations_sum (file_pages ∷ remaining) =
    let longer = combinations ++ file_pages ∷ [] in
    let deeper = loop_combinations user_pages longer (combinations_sum + file_pages) remaining in
    let later = loop_combinations user_pages combinations combinations_sum remaining in
    elim (try_combination user_pages longer (combinations_sum + file_pages) deeper) [
      | some found ↦ some found
      | none ↦ later
    ]

unfoldable pub find_pages_combination : List ℕ → ℤ → Option (List ℕ)
unfolding try_combination loop_combinations
find_pages_combination files_pages user_pages =
    try_combination user_pages [] 0 (loop_combinations user_pages [] 0 files_pages)
