-- ===== src/Distribution/Unassigned/Laws.antt =====
-- What find_unassigned_files leaves for each kind of task, against the pages that are recorded.
use badgerdoc.Base.{
  ℕ, ◌+◌, ◌≡◌, refl, sym, ap, List, [], ◌∷◌, ◌++◌, ◌==◌, if◌then◌else◌, count, not, none, some,
  count-filter_by, count-range_from, contains-count, contains, range_from, length-range_from, leb,
  ◌&&◌, true, filter_by, length, arith, inl, inr, Bool-cases, All, All-append,
}
use badgerdoc.Distribution.Types.{FileItem, item_pages, remaining, IsConsistent}
use badgerdoc.Distribution.Unassigned.{
  File, find_unassigned_pages, add_unassigned_file, check_file_distribution, visit_file,
  visit_files, find_unassigned_files,
}
use badgerdoc.Distribution.Unassigned.Pigeonhole.{IsRecorded, length-lt_of_missing}

-- One if `page` is a page of 1..number that is not distributed, else zero.
abbrev pub open_page : ℕ → List ℕ → ℕ → ℕ
open_page page distributed number =
    if leb 1 page && leb page number then if contains page distributed then 0 else 1 else 0

pub count-find_unassigned_pages :
    (page : ℕ) (d : List ℕ) (n : ℕ) → count page (find_unassigned_pages d n) ≡ open_page page d n
unfolding find_unassigned_pages
count-find_unassigned_pages page d n = ground (
  arith,
  count-filter_by page (λ p. not (contains p d)) (range_from 1 n),
  count-range_from page 1 n,
)

remaining-append :
    (id page : ℕ) (xs ys : List FileItem)
    → remaining id page (xs ++ ys) ≡ remaining id page xs + remaining id page ys
remaining-append id page [] ys = omega arith
remaining-append id page (x ∷ xs) ys = omega (arith, remaining-append id page xs ys)

filter_by-all : (xs : List ℕ) → filter_by (λ _. true) xs ≡ xs
filter_by-all [] = refl
filter_by-all (x ∷ xs) = ap (λ l. x ∷ l) (filter_by-all xs)

-- The item that stands for a file whose pages `pages` are left.
record IsLeft (id : ℕ) (pages : List ℕ) (item : FileItem) : Type 0 where
  same_file : item.file_id ≡ id
  same_pages : item_pages item ≡ pages
  consistent : IsConsistent item

-- Adding a list of pages adds one item for them, the empty list included.
add_unassigned_file_lem :
    (files : List FileItem) (id : ℕ) (pages : List ℕ)
    → (item : FileItem) × (add_unassigned_file files id (length pages) (some pages)
        ≡ files ++ item ∷ [])
      × IsLeft id pages item
unfolding add_unassigned_file
add_unassigned_file_lem files id [] = (
  record { file_id = id; pages_number = 0; unassigned_pages = none },
  refl,
  record { same_file = refl; same_pages = refl; consistent = refl },
)
add_unassigned_file_lem files id (p ∷ ps) = (
  record { file_id = id; pages_number = length (p ∷ ps); unassigned_pages = some (p ∷ ps) },
  refl,
  record { same_file = refl; same_pages = refl; consistent = refl },
)

check_file_distribution_lem :
    (files : List FileItem) (d : List ℕ) (id n : ℕ)
    → (item : FileItem) × (check_file_distribution files d id n ≡ files ++ item ∷ [])
      × IsLeft id (find_unassigned_pages d n) item
unfolding check_file_distribution
check_file_distribution_lem files [] id n = (
  record { file_id = id; pages_number = n; unassigned_pages = none },
  refl,
  record {
    same_file = refl;
    same_pages = sym (filter_by-all (range_from 1 n));
    consistent = sym (length-range_from 1 n);
  },
)
check_file_distribution_lem files (p ∷ ps) id n =
    let (item, e, l) = add_unassigned_file_lem files id (find_unassigned_pages (p ∷ ps) n) in
    (item, ground (arith, e), l)

remaining-check :
    (id page : ℕ) (files : List FileItem) (d : List ℕ) (file n : ℕ)
    → remaining id page (check_file_distribution files d file n)
      ≡ remaining id page files + (if file == id then open_page page d n else 0)
remaining-check id page files d file n =
    let (item, e, l) = check_file_distribution_lem files d file n in
    ground (
      arith,
      ap (remaining id page) e,
      remaining-append id page files (item ∷ []),
      ap (count page) l.same_pages,
      count-find_unassigned_pages page d n,
      l.same_file,
    )

check-IsConsistent :
    (files : List FileItem) (d : List ℕ) (file n : ℕ)
    → All IsConsistent files
    → All IsConsistent (check_file_distribution files d file n)
check-IsConsistent files d file n h =
    let (item, e, l) = check_file_distribution_lem files d file n in
    rw e (All-append IsConsistent files (item ∷ []) h (l.consistent, tt))

-- A record as long as the file leaves no page open.
open_page-full :
    (page : ℕ) (d : List ℕ) (n : ℕ) → IsRecorded d n → length d ≡ n → open_page page d n ≡ 0
open_page-full page d n r e = ground (arith, contains-count page d, length-lt_of_missing n d page r)

-- The columns of a file hold each page at most once, and only pages of the file.
pub record IsValid (f : File) : Type 0 where
  pub annotating : IsRecorded f.distributed_annotating_pages f.pages_number
  pub validating : IsRecorded f.distributed_validating_pages f.pages_number

-- How many files with this id have the page open for annotation.
abbrev pub to_annotate : ℕ → ℕ → List File → ℕ
to_annotate id page [] = 0
to_annotate id page (f ∷ fs) =
    (if f.file_id == id then open_page page f.distributed_annotating_pages f.pages_number else 0)
    + to_annotate id page fs

abbrev pub to_validate : ℕ → ℕ → List File → ℕ
to_validate id page [] = 0
to_validate id page (f ∷ fs) =
    (if f.file_id == id then open_page page f.distributed_validating_pages f.pages_number else 0)
    + to_validate id page fs

visit_file-remaining :
    (id page : ℕ) (found : List FileItem × List FileItem) (f : File)
    → IsValid f
    → (remaining id page (visit_file found f).0
        ≡ remaining id page found.0 + to_annotate id page (f ∷ []))
      × (remaining id page (visit_file found f).1
          ≡ remaining id page found.1 + to_validate id page (f ∷ []))
unfolding visit_file
visit_file-remaining id page (a, v) f valid = ground (
  arith,
  remaining-check id page a f.distributed_annotating_pages f.file_id f.pages_number,
  remaining-check id page v f.distributed_validating_pages f.file_id f.pages_number,
  open_page-full page f.distributed_annotating_pages f.pages_number valid.annotating,
  open_page-full page f.distributed_validating_pages f.pages_number valid.validating,
)

visit_files-remaining :
    (id page : ℕ) (found : List FileItem × List FileItem) (files : List File)
    → All IsValid files
    → (remaining id page (visit_files found files).0
        ≡ remaining id page found.0 + to_annotate id page files)
      × (remaining id page (visit_files found files).1
          ≡ remaining id page found.1 + to_validate id page files)
unfolding visit_files
visit_files-remaining id page found [] valid = (omega arith, omega arith)
visit_files-remaining id page found (f ∷ fs) valid =
    let ih = visit_files-remaining id page (visit_file found f) fs valid.1 in
    let here = visit_file-remaining id page found f valid.0 in
    (omega (arith, ih.0, here.0), omega (arith, ih.1, here.1))

-- Of files whose columns are valid, find_unassigned_files offers each page for annotation exactly
-- as often as it is a page of a file that is not distributed for annotation, and the same for
-- validation.
pub find_unassigned_files_complete :
    (id page : ℕ) (files : List File)
    → All IsValid files
    → (remaining id page (find_unassigned_files files).0 ≡ to_annotate id page files)
      × (remaining id page (find_unassigned_files files).1 ≡ to_validate id page files)
unfolding find_unassigned_files
find_unassigned_files_complete id page files valid =
    let all = visit_files-remaining id page ([], []) files valid in
    (omega (arith, all.0), omega (arith, all.1))

visit_file-IsConsistent :
    (found : List FileItem × List FileItem) (f : File)
    → All IsConsistent found.0 × All IsConsistent found.1
    → All IsConsistent (visit_file found f).0 × All IsConsistent (visit_file found f).1
unfolding visit_file
visit_file-IsConsistent (a, v) f h =
    let ha = check-IsConsistent a f.distributed_annotating_pages f.file_id f.pages_number h.0 in
    let hv = check-IsConsistent v f.distributed_validating_pages f.file_id f.pages_number h.1 in
    elim (Bool-cases (
      (length f.distributed_annotating_pages == f.pages_number)
      && (length f.distributed_validating_pages == f.pages_number))) [
        | inl e ↦ rw e h
        | inr e ↦ rw e (ha, hv)
      ]

visit_files-IsConsistent :
    (found : List FileItem × List FileItem) (files : List File)
    → All IsConsistent found.0 × All IsConsistent found.1
    → All IsConsistent (visit_files found files).0 × All IsConsistent (visit_files found files).1
unfolding visit_files
visit_files-IsConsistent found [] h = h
visit_files-IsConsistent found (f ∷ fs) h =
    visit_files-IsConsistent (visit_file found f) fs (visit_file-IsConsistent found f h)

-- Whatever the columns hold, the page number of each item found is the number of the pages that a
-- distribution takes from it, also where the key unassigned_pages is left out.
pub find_unassigned_files-IsConsistent :
    (files : List File)
    → All IsConsistent (find_unassigned_files files).0
      × All IsConsistent (find_unassigned_files files).1
unfolding find_unassigned_files
find_unassigned_files-IsConsistent files = visit_files-IsConsistent ([], []) files (tt, tt)
