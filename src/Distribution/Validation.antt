-- ===== src/Distribution/Validation.antt =====
-- annotation/annotation/distribution/main.py: distribute_validation_partial_files and what it calls.
-- A set of pages is a list in the order in which the set is iterated; a dict is a list of its items
-- in the order of insertion.
pub mod Take
pub mod Pass
pub mod Sets
pub mod Laws
use badgerdoc.Base.{
  ℕ, ℤ, pos, ◌-ℤ◌, ◌==ℤ◌, ltb_ℤ, Bool, true, false, not, ◌&&◌, List, [], ◌∷◌, ◌++◌, if◌then◌else◌,
  ◌==◌, contains, filter_by, Option, none, some, range_from,
}
use badgerdoc.Distribution.Types.{FileItem, User, Settings, Task, item_pages}
use badgerdoc.Distribution.Annotated.{AnnotatedFilesPages, annotated_pages}
use badgerdoc.Distribution.Tasks.{tasks_number, chunk_tasks}

-- Dict[int, Set[int]] and Dict[int, List[int]].
abbrev pub PagesDict : Type 0
PagesDict = List (ℕ × List ℕ)

-- The validator's load behind a page that is taken: `p - 1 if p > 0 else 0`.
pub load_after : Bool → ℤ → ℤ
load_after fresh load = if fresh then if ltb_ℤ (pos 0) load then load -ℤ pos 1 else pos 0 else load

-- The loop over the pages of one file: the pages taken, the load that is left, and whether the
-- function returns from inside.
unfoldable pub take_pages : Bool → List ℕ → ℤ → List ℕ → List ℕ × ℤ × Bool
unfolding load_after
take_pages count_pages annotated load [] = ([], load, false)
take_pages count_pages annotated load (page ∷ pages) =
    let fresh = not (contains page annotated) in
    let (taken, left, stopped) = take_pages count_pages annotated (load_after fresh load) pages in
    if count_pages && (load ==ℤ pos 0)
    then ([], load, true)
    else (if fresh then page ∷ taken else taken, left, stopped)

-- `files_all_pages[file_id].difference_update(…)`
abbrev pub difference : List ℕ → List ℕ → List ℕ
difference pages taken = filter_by (λ page. not (contains page taken)) pages

module _ {F : Type 0} where
  -- The pages to validate, and files_all_pages and the validator as they are changed.
  unfoldable pub filter_validation_files_pages :
      User F → AnnotatedFilesPages → PagesDict → Bool → PagesDict × PagesDict × User F
  unfolding take_pages annotated_pages
  filter_validation_files_pages validator annotated [] count_pages = ([], [], validator)
  filter_validation_files_pages validator annotated ((file_id, pages) ∷ files) count_pages =
      let own = annotated_pages annotated validator.user_id file_id in
      let (taken, load, stopped) = take_pages count_pages own validator.pages_number pages in
      let validator' = record validator { pages_number = load } in
      let here : ℕ × List ℕ = (file_id, taken) in
      let left : ℕ × List ℕ = (file_id, difference pages taken) in
      let (more, files', validator'') =
        filter_validation_files_pages validator' annotated files count_pages in
      if stopped
      then (here ∷ [], left ∷ files, validator')
      else (here ∷ more, left ∷ files', validator'')

-- The tasks for the pages of one validator; the settings say "is_validation": True.
pub validation_tasks_of : Settings → ℕ → PagesDict → List Task
unfolding tasks_number chunk_tasks
validation_tasks_of settings user_id [] = []
validation_tasks_of settings user_id ((file_id, pages) ∷ files) =
    (chunk_tasks (record settings { is_validation = true }) file_id user_id (tasks_number pages)
      pages).0
    ++ validation_tasks_of settings user_id files

-- `any(files_all_pages.values())`
abbrev pub any_pages : PagesDict → Bool
any_pages [] = false
any_pages ((_, []) ∷ files) = any_pages files
any_pages ((_, _ ∷ _) ∷ files) = true

-- `d[key] = pages`
abbrev pub dict_set : ℕ → List ℕ → PagesDict → PagesDict
dict_set key pages [] = (key, pages) ∷ []
dict_set key pages ((k, v) ∷ d) = if k == key then (k, pages) ∷ d else (k, v) ∷ dict_set key pages d

-- `to_set` is the order in which Python iterates the set of a list's items.
pub all_pages : (to_set : List ℕ → List ℕ) → PagesDict → List FileItem → PagesDict
all_pages to_set files_all_pages [] = files_all_pages
all_pages to_set files_all_pages (item ∷ items) =
    all_pages to_set (dict_set item.file_id (to_set (item_pages item)) files_all_pages) items

module _ {F : Type 0} where
  -- The tasks are returned and not appended.
  unfoldable pub create_partial_validation_tasks :
      AnnotatedFilesPages
      → List (User F)
      → PagesDict
      → Settings
      → Bool
      → List Task × PagesDict × List (User F)
  unfolding filter_validation_files_pages validation_tasks_of
  create_partial_validation_tasks annotated [] files settings count_pages = ([], files, [])
  create_partial_validation_tasks annotated (validator ∷ validators) files settings count_pages =
      let (pages, files', validator') =
        filter_validation_files_pages validator annotated files count_pages in
      let (more, files'', validators') =
        create_partial_validation_tasks annotated validators files' settings count_pages in
      (
        validation_tasks_of settings validator.user_id pages ++ more,
        files'',
        validator' ∷ validators',
      )

  unfoldable pub distribute_validation_partial_files :
      (to_set : List ℕ → List ℕ)
      → AnnotatedFilesPages
      → List FileItem
      → List (User F)
      → Settings
      → List Task
  unfolding create_partial_validation_tasks all_pages
  distribute_validation_partial_files to_set annotated files validators settings =
      let (tasks, left, validators') =
        create_partial_validation_tasks annotated validators (all_pages to_set [] files) settings
          true in
      let (more, _, _) =
        create_partial_validation_tasks annotated validators' left settings false in
      if any_pages left then tasks ++ more else tasks
