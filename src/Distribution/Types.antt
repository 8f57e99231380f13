-- ===== src/Distribution/Types.antt =====
-- The data of annotation/annotation/distribution/main.py: the dicts for files, users and tasks.
-- A dict is one record; a key that may be absent is an Option. The dict of a file is identified by
-- its `file_id`, the primary key of the job's files.
use badgerdoc.Base.{
  ℕ, ◌+◌, ◌≡◌, refl, ◌∙◌, ◌<◌, ◌≤◌, ℤ, Bool, Option, none, some, List, [], ◌∷◌, ◌++◌, arith, ◌==◌,
  if◌then◌else◌, count, range_from, length, All,
}

-- MAX_PAGES
abbrev pub max_pages : ℕ
max_pages = 50

-- TaskStatusEnumSchema
pub data TaskStatus : Type 0 where
  pending ready in_progress finished : TaskStatus

-- An item of FilesForDistribution.
pub record FileItem : Type 0 where
  pub file_id : ℕ
  pub pages_number : ℕ
  pub unassigned_pages : Option (List ℕ)

-- A DistributionUser. `F` is the type of Python's floats; a load in pages can be negative.
pub record User (F : Type 0) : Type 0 where
  pub user_id : ℕ
  pub default_load : ℕ
  pub overall_load : ℕ
  pub share_load : F
  pub pages_number : ℤ

-- What all tasks of one distribution have in common.
pub record Settings : Type 0 where
  pub job_id : ℕ
  pub is_validation : Bool
  pub status : TaskStatus
  pub deadline : Option ℕ

pub record Task : Type 0 where
  pub file_id : ℕ
  pub pages : List ℕ
  pub job_id : ℕ
  pub user_id : ℕ
  pub is_validation : Bool
  pub status : TaskStatus
  pub deadline : Option ℕ

-- The dict literal that every task is appended as.
abbrev pub new_task : Settings → ℕ → ℕ → List ℕ → Task
new_task settings file_id user_id pages = record {
  file_id = file_id;
  pages = pages;
  job_id = settings.job_id;
  user_id = user_id;
  is_validation = settings.is_validation;
  status = settings.status;
  deadline = settings.deadline;
}

-- `item.get("unassigned_pages", list(range(1, item["pages_number"] + 1)))`
abbrev pub item_pages : FileItem → List ℕ
item_pages item = elim item.unassigned_pages [
  | none ↦ range_from 1 item.pages_number
  | some pages ↦ pages
]

-- How often the tasks hold page `page` of file `id`.
abbrev pub covered : ℕ → ℕ → List Task → ℕ
covered id page [] = 0
covered id page (t ∷ ts) = (if t.file_id == id then count page t.pages else 0) + covered id page ts

-- The same, of the tasks of one user.
abbrev pub covered_by : ℕ → ℕ → ℕ → List Task → ℕ
covered_by user id page [] = 0
covered_by user id page (t ∷ ts) =
    (if t.user_id == user then if t.file_id == id then count page t.pages else 0 else 0)
    + covered_by user id page ts

-- The sum of a weight over the files.
abbrev pub total : (FileItem → ℕ) → List FileItem → ℕ
total weight [] = 0
total weight (f ∷ fs) = weight f + total weight fs

-- How often the files still offer page `page` of file `id`.
abbrev pub remaining : ℕ → ℕ → List FileItem → ℕ
remaining id page = total (λ f. if f.file_id == id then count page (item_pages f) else 0)

-- `sum(x["pages_number"] for x in files)`
abbrev pub total_pages : List FileItem → ℕ
total_pages = total (λ f. f.pages_number)

-- How many files have this id.
abbrev pub holders : ℕ → List FileItem → ℕ
holders id = total (λ f. if f.file_id == id then 1 else 0)

-- No two files of a job have the same id.
abbrev pub IsDistinct : List FileItem → Type 0
IsDistinct files = (id : ℕ) → holders id files ≤ 1

-- The number that goes with a file is the number of the pages that a distribution takes from it.
abbrev pub IsConsistent : FileItem → Type 0
IsConsistent f = f.pages_number ≡ length (item_pages f)

-- How many pages the tasks give to user `id`.
abbrev pub workload : ℕ → List Task → ℕ
workload id [] = 0
workload id (t ∷ ts) = (if t.user_id == id then length t.pages else 0) + workload id ts

-- No page of a file is offered twice.
abbrev pub IsOnce : List FileItem → Type 0
IsOnce files = (id page : ℕ) → remaining id page files ≤ 1

-- A task is not empty, and holds at most 50 pages.
abbrev pub IsSized : Task → Type 0
IsSized t = (0 < length t.pages) × (length t.pages ≤ max_pages)

pub covered-append :
    (id page : ℕ) (xs ys : List Task)
    → covered id page (xs ++ ys) ≡ covered id page xs + covered id page ys
covered-append id page [] ys = omega arith
covered-append id page (x ∷ xs) ys = omega (arith, covered-append id page xs ys)

pub workload-append :
    (id : ℕ) (xs ys : List Task) → workload id (xs ++ ys) ≡ workload id xs + workload id ys
workload-append id [] ys = omega arith
workload-append id (x ∷ xs) ys = omega (arith, workload-append id xs ys)

pub covered_by-append :
    (user id page : ℕ) (xs ys : List Task)
    → covered_by user id page (xs ++ ys) ≡ covered_by user id page xs + covered_by user id page ys
covered_by-append user id page [] ys = omega arith
covered_by-append user id page (x ∷ xs) ys = omega (arith, covered_by-append user id page xs ys)

-- Of tasks that are all of one user, another user holds nothing.
pub covered_by-le :
    (user owner id page : ℕ) (tasks : List Task)
    → All (λ t. t.user_id ≡ owner) tasks
    → covered_by user id page tasks ≤ (if owner == user then covered id page tasks else 0)
covered_by-le user owner id page [] h = ground arith
covered_by-le user owner id page (t ∷ ts) h =
    ground (arith, covered_by-le user owner id page ts h.1, h.0)

pub covered_by-owner :
    (user id page : ℕ) (tasks : List Task)
    → All (λ t. t.user_id ≡ user) tasks
    → covered_by user id page tasks ≡ covered id page tasks
covered_by-owner user id page [] h = refl
covered_by-owner user id page (t ∷ ts) h = ground (arith, covered_by-owner user id page ts h.1, h.0)

pub owner_trans :
    {i j : ℕ} (tasks : List Task)
    → i ≡ j
    → All (λ t. t.user_id ≡ i) tasks
    → All (λ t. t.user_id ≡ j) tasks
owner_trans [] e h = tt
owner_trans (t ∷ tasks) e h = (h.0 ∙ e, owner_trans tasks e h.1)
