-- ===== src/Distribution/Whole.antt =====
-- annotation/annotation/distribution/main.py: distribute_whole_files, which gives each user in turn
-- the files that fill the load exactly, and then all files that still fit.
pub mod Choice
pub mod Stage
pub mod Laws
use badgerdoc.Base.{ℕ, Call, ok, raises, ◌>>=◌, List, [], ◌∷◌, ◌++◌, not, contains, filter_by, map}
use badgerdoc.Distribution.Types.{FileItem, User, Settings, Task}
use badgerdoc.Distribution.Annotated.{AnnotatedFilesPages, annotated_of}
use badgerdoc.Distribution.Files.{find_equal_files, find_small_files}
use badgerdoc.Distribution.Tasks.{create_tasks}

-- `[item for item in files if item["file_id"] not in annotated_files]`
abbrev pub files_to_distribute : AnnotatedFilesPages → ℕ → List FileItem → List FileItem
files_to_distribute annotated user_id files =
    let annotated_files = map (λ info. info.file_id) (annotated_of user_id annotated) in
    filter_by (λ item. not (contains item.file_id annotated_files)) files

module _ {F : Type 0} where
  -- The loop body. The list of files holds the dicts of `files`, so it is read again after
  -- create_tasks has changed them.
  pub distribute_to_user :
      AnnotatedFilesPages
      → Settings
      → User F
      → List FileItem
      → Call (List Task × User F × List FileItem)
  unfolding annotated_of find_equal_files find_small_files create_tasks
  distribute_to_user annotated settings user files = do
    equal ← find_equal_files (files_to_distribute annotated user.user_id files) user.pages_number
    let (tasks, user', files') = create_tasks settings equal user files
    small ← find_small_files (files_to_distribute annotated user.user_id files') user'.pages_number
    let (more, user'', files'') = create_tasks settings small user' files'
    ok (tasks ++ more, user'', files'')

  unfoldable pub distribute_whole_files :
      AnnotatedFilesPages
      → Settings
      → List FileItem
      → List (User F)
      → Call (List Task × List (User F) × List FileItem)
  unfolding distribute_to_user
  distribute_whole_files annotated settings files [] = ok ([], [], files)
  distribute_whole_files annotated settings files (user ∷ users) = do
    (tasks, user', files') ← distribute_to_user annotated settings user files
    (more, users', files'') ← distribute_whole_files annotated settings files' users
    ok (tasks ++ more, user' ∷ users', files'')
