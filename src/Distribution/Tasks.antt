-- ===== src/Distribution/Tasks.antt =====
-- annotation/annotation/distribution/main.py: create_tasks, and the loop that cuts the pages of a
-- file into tasks of at most MAX_PAGES pages, which stands in three of its functions.
pub mod Chunks
pub mod Moves
pub mod Laws
use badgerdoc.Base.{
  ℕ, zero, suc, ◌+◌, ◌/◌, ◌%◌, pos, ◌-ℤ◌, Option, none, some, List, [], ◌∷◌, ◌++◌, if◌then◌else◌,
  ◌==◌, take, drop, length,
}
use badgerdoc.Distribution.Types.{max_pages, FileItem, User, Settings, Task, new_task, item_pages}

unfoldable pub tasks_number : List ℕ → ℕ
tasks_number pages =
    let full_tasks = length pages / max_pages in
    if length pages % max_pages == 0 then full_tasks else full_tasks + 1

-- The loop over `range(tasks_number)`: the tasks, and what `pages[:MAX_PAGES] = []` leaves in place.
unfoldable pub chunk_tasks : Settings → ℕ → ℕ → ℕ → List ℕ → List Task × List ℕ
chunk_tasks settings file_id user_id zero pages = ([], pages)
chunk_tasks settings file_id user_id (suc times) pages =
    let (tasks, left) = chunk_tasks settings file_id user_id times (drop max_pages pages) in
    (new_task settings file_id user_id (take max_pages pages) ∷ tasks, left)

-- The dict of a file in the list is changed in place.
unfoldable pub store_item : FileItem → List FileItem → List FileItem
store_item item [] = []
store_item item (f ∷ files) =
    (if f.file_id == item.file_id then item else f) ∷ store_item item files

-- The file after its pages are given out: the list under "unassigned_pages", if there is one, is the
-- one that the loop has emptied.
distributed_item : FileItem → List ℕ → FileItem
distributed_item file left = record file {
  pages_number = 0;
  unassigned_pages = elim file.unassigned_pages [ none ↦ none | some _ ↦ some left ];
}

module _ {F : Type 0} where
  -- The tasks are returned and not appended, with the user and the files as they are changed.
  unfoldable pub create_tasks :
      Settings → List FileItem → User F → List FileItem → List Task × User F × List FileItem
  unfolding tasks_number chunk_tasks store_item distributed_item
  create_tasks settings [] user files = ([], user, files)
  create_tasks settings (file ∷ files_for_task) user files =
      let pages = item_pages file in
      let (tasks, left) =
        chunk_tasks settings file.file_id user.user_id (tasks_number pages) pages in
      let user' = record user { pages_number = user.pages_number -ℤ pos file.pages_number } in
      let files' = store_item (distributed_item file left) files in
      let (more, user'', files'') = create_tasks settings files_for_task user' files' in
      (tasks ++ more, user'', files'')
