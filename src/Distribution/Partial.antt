-- ===== src/Distribution/Partial.antt =====
-- annotation/annotation/distribution/main.py: distribute_annotation_partial_files, which hands out
-- the pages that no user could take as whole files, page by page.
pub mod Step
pub mod Loop
pub mod Filter
pub mod Overdrawn
pub mod Laws
use badgerdoc.Base.{
  ℕ, ℤ, pos, ◌-ℤ◌, ◌==ℤ◌, Call, ok, raises, index_error, ◌>>=◌, List, [], ◌∷◌, ◌++◌, if◌then◌else◌,
  ltb, length, not, ◌&&◌, false, filter_by, ◌==◌,
}
use badgerdoc.Distribution.Types.{max_pages, FileItem, User, Settings, Task, new_task, item_pages}
use badgerdoc.Distribution.Tasks.{tasks_number, chunk_tasks}

-- The tasks of this stage are written with "is_validation": False.
abbrev pub annotation : Settings → Settings
annotation settings = record settings { is_validation = false }

module _ {F : Type 0} where
  -- `if not annotators[0]["pages_number"]: annotators.pop(0)`
  pub pop_spent : List (User F) → Call (List (User F))
  pop_spent [] = raises index_error
  pop_spent (a ∷ rest) = ok (if a.pages_number ==ℤ pos 0 then rest else a ∷ rest)

  -- `annotators[0]["pages_number"] -= 1`
  pub count_page : List (User F) → Call (List (User F))
  count_page [] = raises index_error
  count_page (a ∷ rest) = ok (record a { pages_number = a.pages_number -ℤ pos 1 } ∷ rest)

  -- The body of `for page in pages_to_distribute`: the tasks it appends, and the values of `pages`
  -- and `annotators` behind it.
  pub place_page :
      Settings → ℕ → ℕ → List ℕ → List (User F) → Call (List Task × List ℕ × List (User F))
  unfolding pop_spent count_page
  place_page settings file_id page pages [] = raises index_error
  place_page settings file_id page pages (a ∷ rest) =
      let room = not (a.pages_number ==ℤ pos 0) && ltb (length pages) max_pages in
      let full = new_task (annotation settings) file_id a.user_id pages ∷ [] in
      do
        annotators ← pop_spent (a ∷ rest)
        annotators' ← count_page annotators
        ok (if room then [] else full, if room then pages ++ page ∷ [] else page ∷ [], annotators')

  pub place_pages :
      Settings → ℕ → List ℕ → List ℕ → List (User F) → Call (List Task × List ℕ × List (User F))
  unfolding place_page
  place_pages settings file_id [] pages annotators = ok ([], pages, annotators)
  place_pages settings file_id (page ∷ left) pages annotators = do
    (tasks, pages', annotators') ← place_page settings file_id page pages annotators
    (more, pages'', annotators'') ← place_pages settings file_id left pages' annotators'
    ok (tasks ++ more, pages'', annotators'')

  -- `if pages:` behind the loop.
  pub place_rest : Settings → ℕ → List ℕ → List (User F) → Call (List Task)
  unfolding tasks_number chunk_tasks
  place_rest settings file_id [] annotators = ok []
  place_rest settings file_id (page ∷ pages) [] = raises index_error
  place_rest settings file_id (page ∷ pages) (a ∷ rest) =
      let pages' = page ∷ pages in
      ok (chunk_tasks (annotation settings) file_id a.user_id (tasks_number pages') pages').0

  -- The body of `for item in files`.
  pub place_item : Settings → FileItem → List (User F) → Call (List Task × List (User F))
  unfolding pop_spent place_pages place_rest
  place_item settings item annotators = do
    annotators' ← pop_spent annotators
    (tasks, pages, annotators'') ←
        place_pages settings item.file_id (item_pages item) [] annotators'
    more ← place_rest settings item.file_id pages annotators''
    ok (tasks ++ more, annotators'')

  pub place_items : Settings → List FileItem → List (User F) → Call (List Task × List (User F))
  unfolding place_item
  place_items settings [] annotators = ok ([], annotators)
  place_items settings (item ∷ items) annotators = do
    (tasks, annotators') ← place_item settings item annotators
    (more, annotators'') ← place_items settings items annotators'
    ok (tasks ++ more, annotators'')

  unfoldable pub distribute_annotation_partial_files :
      Settings → List FileItem → List (User F) → Call (List Task)
  unfolding place_items
  distribute_annotation_partial_files settings files annotators = do
    (tasks, _) ←
        place_items settings (filter_by (λ f. not (f.pages_number == 0)) files)
          (filter_by (λ u. not (u.pages_number ==ℤ pos 0)) annotators)
    ok tasks
