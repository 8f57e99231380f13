-- ===== src/Distribution/Annotated/Laws.antt =====
-- find_annotated_pages records for every user exactly the pages of the user's tasks.
use badgerdoc.Base.{
  ℕ, ◌+◌, ◌≡◌, List, [], ◌∷◌, ◌++◌, if◌then◌else◌, ◌==◌, count, count-append, contains-count, leb,
  arith,
}
use badgerdoc.Distribution.Types.{Task, covered_by}
use badgerdoc.Distribution.Annotated.{
  FileInfo, AnnotatedFilesPages, append_info, find_annotated_from, find_annotated_pages,
  annotated_of, annotated_pages, pages_in, annotates,
}

count-pages_in :
    (id page : ℕ) (infos : List FileInfo) (info : FileInfo)
    → count page (pages_in id (infos ++ info ∷ []))
      ≡ count page (pages_in id infos) + (if info.file_id == id then count page info.pages else 0)
count-pages_in id page [] info = ground (arith, count-append page info.pages [])
count-pages_in id page (i ∷ infos) info = ground (
  arith,
  count-pages_in id page infos info,
  count-append page i.pages (pages_in id (infos ++ info ∷ [])),
  count-append page i.pages (pages_in id infos),
)

-- How often the dict holds the page for the user.
abbrev recorded : AnnotatedFilesPages → ℕ → ℕ → ℕ → ℕ
recorded annotated user id page = count page (annotated_pages annotated user id)

recorded-append_info :
    (key : ℕ) (info : FileInfo) (annotated : AnnotatedFilesPages) (user id page : ℕ)
    → recorded (append_info key info annotated) user id page
      ≡ recorded annotated user id page
        + (if key == user then if info.file_id == id then count page info.pages else 0 else 0)
unfolding append_info annotated_of annotated_pages
recorded-append_info key info [] user id page = ground (arith, count-append page info.pages [])
recorded-append_info key info ((k, infos) ∷ rest) user id page =
    ground
      (arith, recorded-append_info key info rest user id page, count-pages_in id page infos info)

recorded-find_annotated_from :
    (annotated : AnnotatedFilesPages) (tasks : List Task) (user id page : ℕ)
    → recorded (find_annotated_from annotated tasks) user id page
      ≡ recorded annotated user id page + covered_by user id page tasks
unfolding find_annotated_from
recorded-find_annotated_from annotated [] user id page = omega arith
recorded-find_annotated_from annotated (task ∷ tasks) user id page =
    let info : FileInfo = record { file_id = task.file_id; pages = task.pages } in
    omega (
      arith,
      recorded-find_annotated_from (append_info task.user_id info annotated) tasks user id page,
      recorded-append_info task.user_id info annotated user id page,
    )

-- By the dict of find_annotated_pages a user annotates a page of a file exactly if a task of the user
-- holds it.
pub find_annotated_pages-annotates :
    (tasks : List Task) (user id page : ℕ)
    → annotates (find_annotated_pages tasks) user id page ≡ leb 1 (covered_by user id page tasks)
unfolding find_annotated_pages annotated_of annotated_pages
find_annotated_pages-annotates tasks user id page = ground (
  arith,
  recorded-find_annotated_from [] tasks user id page,
  contains-count page (annotated_pages (find_annotated_from [] tasks) user id),
)
