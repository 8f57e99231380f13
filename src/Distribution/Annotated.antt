-- ===== src/Distribution/Annotated.antt =====
-- annotation/annotation/distribution/main.py: find_annotated_pages, the dict of the files and pages
-- that each user annotates, by which cross-validation keeps users from validating their own work.
pub mod Laws
use badgerdoc.Base.{
  ℕ, Bool, true, not, any_by, ◌≡◌, refl, arith, contains, map, List, [], ◌∷◌, ◌++◌, if◌then◌else◌,
  ◌==◌,
}
use badgerdoc.Distribution.Types.{User, Task, covered_by}
use badgerdoc.Distribution.Loads.{user_ids}

-- A `file_info` dict.
pub record FileInfo : Type 0 where
  pub file_id : ℕ
  pub pages : List ℕ

-- Keyed by the user, in the order of insertion.
abbrev pub AnnotatedFilesPages : Type 0
AnnotatedFilesPages = List (ℕ × List FileInfo)

-- `annotated_files_pages[user_id].append(file_info)` on a defaultdict(list).
pub append_info : ℕ → FileInfo → AnnotatedFilesPages → AnnotatedFilesPages
append_info user_id info [] = (user_id, info ∷ []) ∷ []
append_info user_id info ((key, infos) ∷ rest) =
    if key == user_id
    then (key, infos ++ info ∷ []) ∷ rest
    else (key, infos) ∷ append_info user_id info rest

pub find_annotated_from : AnnotatedFilesPages → List Task → AnnotatedFilesPages
unfolding append_info
find_annotated_from annotated [] = annotated
find_annotated_from annotated (task ∷ tasks) =
    let info : FileInfo = record { file_id = task.file_id; pages = task.pages } in
    find_annotated_from (append_info task.user_id info annotated) tasks

unfoldable pub find_annotated_pages : List Task → AnnotatedFilesPages
unfolding find_annotated_from
find_annotated_pages tasks = find_annotated_from [] tasks

-- `annotated_files_pages.get(user_id, [])`
unfoldable pub annotated_of : ℕ → AnnotatedFilesPages → List FileInfo
annotated_of user_id [] = []
annotated_of user_id ((key, infos) ∷ rest) =
    if key == user_id then infos else annotated_of user_id rest

-- The pages of one file in a list of `file_info` dicts.
abbrev pub pages_in : ℕ → List FileInfo → List ℕ
pages_in file_id [] = []
pages_in file_id (info ∷ infos) =
    let rest = pages_in file_id infos in
    if info.file_id == file_id then info.pages ++ rest else rest

-- `annotated_pages` of filter_validation_files_pages: the pages of one file that the user annotates.
unfoldable pub annotated_pages : AnnotatedFilesPages → ℕ → ℕ → List ℕ
unfolding annotated_of
annotated_pages annotated user_id file_id = pages_in file_id (annotated_of user_id annotated)

-- The page belongs to the work of the user as an annotator.
abbrev pub annotates : AnnotatedFilesPages → ℕ → ℕ → ℕ → Bool
annotates annotated user id page = contains page (annotated_pages annotated user id)

-- How often the tasks give user `user` a page that the user annotates.
abbrev pub own_work : AnnotatedFilesPages → ℕ → ℕ → ℕ → List Task → ℕ
own_work annotated user id page tasks =
    if annotates annotated user id page then covered_by user id page tasks else 0

-- Somebody among the users may validate the page: it is not part of that user's annotation work.
abbrev pub any_fresh : {F : Type 0} → AnnotatedFilesPages → List (User F) → ℕ → ℕ → Bool
any_fresh annotated users id page =
    any_by (λ user. not (annotates annotated user id page)) (user_ids users)

contains-append :
    (x : ℕ) (xs ys : List ℕ)
    → contains x (xs ++ ys) ≡ (if contains x xs then true else contains x ys)
contains-append x [] ys = refl
contains-append x (y ∷ xs) ys = ground (arith, contains-append x xs ys)

-- A file with a page that the user annotates is one of the files that the user annotates.
pub file_of_page :
    (id page : ℕ) (infos : List FileInfo)
    → contains page (pages_in id infos) ≡ true
    → contains id (map (λ info. info.file_id) infos) ≡ true
file_of_page id page [] h = h
file_of_page id page (info ∷ infos) h =
    ground (arith, contains-append page info.pages (pages_in id infos), file_of_page id page infos)
