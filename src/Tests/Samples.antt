-- ===== src/Tests/Samples.antt =====
-- Users and files for the tests.
use badgerdoc.Base.{
  count-range_from, count, range_from, ◌≤◌, if◌then◌else◌, ◌==◌, ℕ, zero, suc, ◌+◌, ℤ, pos, true,
  false, none, some, List, [], ◌∷◌, All, refl, arith,
}
use badgerdoc.Distribution.Types.{
  FileItem, User, Settings, TaskStatus, IsDistinct, IsOnce, IsConsistent,
}
use badgerdoc.Distribution.Load.{FloatOps}
use badgerdoc.Tests.Fractions.{fractions}

abbrev pub Float : Type 0
Float = FloatOps.Float fractions

-- A user before the loads are calculated.
abbrev pub user : ℕ → ℕ → ℕ → User Float
user id default overall = record {
  user_id = id;
  default_load = default;
  overall_load = overall;
  share_load = (pos 0, 1);
  pages_number = pos 0;
}

abbrev pub with_pages : ℕ → ℤ → User Float
with_pages id pages = record {
  user_id = id;
  default_load = 100;
  overall_load = 0;
  share_load = (pos 0, 1);
  pages_number = pages;
}

abbrev pub file : ℕ → ℕ → FileItem
file id pages = record { file_id = id; pages_number = pages; unassigned_pages = none }

abbrev pub partial_file : ℕ → List ℕ → ℕ → FileItem
partial_file id pages number = record {
  file_id = id;
  pages_number = number;
  unassigned_pages = some pages;
}

abbrev pub to_annotate : Settings
to_annotate = record {
  job_id = 1;
  is_validation = false;
  status = TaskStatus.pending;
  deadline = none;
}

abbrev pub to_validate : Settings
to_validate = record {
  job_id = 1;
  is_validation = true;
  status = TaskStatus.pending;
  deadline = none;
}

-- Three users of the same default load, the last one with work from other jobs.
abbrev pub team : List (User Float)
team = user 1 100 0 ∷ user 2 100 0 ∷ user 3 100 60 ∷ []

-- Ten users without any work.
abbrev users_from : ℕ → ℕ → List (User Float)
users_from id zero = []
users_from id (suc n) = user id 100 0 ∷ users_from (id + 1) n

abbrev pub crowd : List (User Float)
crowd = users_from 1 10

abbrev pub files : List FileItem
files = file 7 4 ∷ file 8 60 ∷ partial_file 9 (2 ∷ 5 ∷ 6 ∷ []) 3 ∷ []

-- What calculate_users_load makes of the team for the files.
abbrev loaded : User Float → ℤ → ℤ → User Float
loaded u share pages = record u {
  share_load = (share, 374733943282472112000000000000);
  pages_number = pages;
}

abbrev pub team_loaded : List (User Float)
team_loaded =
    loaded (user 1 100 0) (pos 166548419236654272000000000000) (pos 30)
    ∷ loaded (user 2 100 0) (pos 166548419236654272000000000000) (pos 30)
    ∷ loaded (user 3 100 60) (pos 41637104809163568000000000000) (pos 7)
    ∷ []

pub files-IsDistinct : IsDistinct files
files-IsDistinct = λ id. ground arith

pub files-IsConsistent : All IsConsistent files
files-IsConsistent = (refl, (refl, (refl, tt)))

range_once : (page n : ℕ) → count page (range_from 1 n) ≤ 1
range_once page n = ground (arith, count-range_from page 1 n)

one_of_three :
    (id a b c : ℕ)
    → a ≤ 1
    → b ≤ 1
    → c ≤ 1
    → (if 7 == id then a else 0) + ((if 8 == id then b else 0) + ((if 9 == id then c else 0) + 0))
      ≤ 1
one_of_three id a b c h i j = ground arith

pub files-IsOnce : IsOnce files
files-IsOnce = λ id page.
    one_of_three id (count page (range_from 1 4)) (count page (range_from 1 60))
      (count page (2 ∷ 5 ∷ 6 ∷ [])) (range_once page 4) (range_once page 60) (ground arith)
