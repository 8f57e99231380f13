-- ===== src/Distribution/Extensive.antt =====
-- annotation/annotation/distribution/main.py: distribute_tasks_extensively, which gives every page to as many
-- annotators as the coverage asks for.
pub mod Sets
pub mod Turn
pub mod Laws
use badgerdoc.Base.{
  ℕ, zero, suc, ◌+◌, ◌-◌, ℤ, pos, negsuc, ◌-ℤ◌, Bool, true, false, not, Option, none, some, List,
  [], ◌∷◌, ◌++◌, if◌then◌else◌, ◌==◌, leb, ltb, contains, filter_by, length, take, range_from,
  number_key, lookup, put, Call, ok, raises, ◌>>=◌, index_error, out_of_fuel, min,
}
use badgerdoc.Distribution.Types.{max_pages, FileItem, User, Settings, Task, new_task}
use badgerdoc.Distribution.Load.{FloatOps, calculate_users_load}

-- `sorted(set(xs))`
abbrev pub insert_page : ℕ → List ℕ → List ℕ
insert_page x [] = x ∷ []
insert_page x (y ∷ ys) = let later = insert_page x ys in if leb x y then x ∷ y ∷ ys else y ∷ later

abbrev pub sorted_set : List ℕ → List ℕ
sorted_set [] = []
sorted_set (x ∷ xs) = let rest = sorted_set xs in if contains x xs then rest else insert_page x rest

-- `sorted(set(pages).difference(given))`
abbrev pub sorted_difference : List ℕ → List ℕ → List ℕ
sorted_difference pages given = sorted_set (filter_by (λ page. not (contains page given)) pages)

-- users_seen_pages: by user, by file, a set of pages; a missing key is empty.
abbrev pub Seen : Type 0
Seen = List (ℕ × List (ℕ × List ℕ))

abbrev pub or_empty : {A : Type 0} → Option (List A) → List A
or_empty none = []
or_empty (some xs) = xs

abbrev pub seen_pages : ℕ → ℕ → Seen → List ℕ
seen_pages user_id file_id seen = or_empty (lookup file_id (or_empty (lookup user_id seen)))

-- `.update(pages)`
abbrev pub add_seen : ℕ → ℕ → List ℕ → Seen → Seen
add_seen user_id file_id pages seen =
    put user_id
      (put file_id (seen_pages user_id file_id seen ++ pages) (or_empty (lookup user_id seen))) seen

-- The pages of a file; an empty list of unassigned pages stands for all pages.
abbrev pub pages_of_file : FileItem → List ℕ
pages_of_file file = elim file.unassigned_pages [
  | none ↦ range_from 1 file.pages_number
  | some [] ↦ range_from 1 file.pages_number
  | some (p ∷ ps) ↦ p ∷ ps
]

-- `sorted(files, key=lambda x: x["pages_number"])`
abbrev pub insert_file : FileItem → List FileItem → List FileItem
insert_file file [] = file ∷ []
insert_file file (f ∷ files) =
    let later = insert_file file files in
    if ltb f.pages_number file.pages_number then f ∷ later else file ∷ f ∷ files

abbrev pub sort_files : List FileItem → List FileItem
sort_files [] = []
sort_files (file ∷ files) = insert_file file (sort_files files)

-- An annotator in the list `annotators`, with the load that is left to the user.
pub record Annotator : Type 0 where
  pub user_id : ℕ
  pub load : ℕ

-- `sorted(..., key=lambda x: -x["pages_number"])`
abbrev pub insert_annotator : Annotator → List Annotator → List Annotator
insert_annotator a [] = a ∷ []
insert_annotator a (b ∷ annotators) =
    let later = insert_annotator a annotators in
    if ltb a.load b.load then b ∷ later else a ∷ b ∷ annotators

module _ {F : Type 0} where
  -- The users with a load of more than zero, the greatest first.
  abbrev pub add_able : User F → ℤ → List Annotator → List Annotator
  add_able user (pos zero) annotators = annotators
  add_able user (pos (suc n)) annotators =
      insert_annotator (record { user_id = user.user_id; load = suc n }) annotators
  add_able user (negsuc n) annotators = annotators

  abbrev pub able_users : List (User F) → List Annotator
  able_users [] = []
  able_users (user ∷ users) = add_able user user.pages_number (able_users users)

  -- `annotators[0]["pages_number"] -= number`, in the dict of the user.
  abbrev pub take_load : ℕ → ℕ → List (User F) → List (User F)
  take_load user_id number [] = []
  take_load user_id number (u ∷ users) =
      (if u.user_id == user_id then record u { pages_number = u.pages_number -ℤ pos number } else u)
      ∷ take_load user_id number users

-- The variables of the loops.
pub record Spread (F : Type 0) : Type 0 where
  pub annotators : List Annotator
  pub users : List (User F)
  pub seen : Seen
  pub tasks : List Task

-- `annotators.pop(0)` for a load of zero.
abbrev pub keep_able : ℕ → ℕ → List Annotator → List Annotator
keep_able user_id zero rest = rest
keep_able user_id (suc n) rest = record { user_id = user_id; load = suc n } ∷ rest

-- user_can_take_pages.
abbrev pub can_take : ℕ → ℕ → ℕ
can_take pages_left load = min pages_left (if leb max_pages load then max_pages else load)

module _ {F : Type 0} (settings : Settings) (file_id : ℕ) where
  -- A turn of the while loop for the first annotator, who has not seen these pages.
  abbrev pub give_pages :
      (pages not_seen : List ℕ) → Annotator → (rest : List Annotator) → Spread F → List ℕ × Spread F
  give_pages pages [] a rest s = (pages, record s { annotators = rest })
  give_pages pages (p ∷ not_seen) a rest s =
      let pages_for_user = take (can_take (length pages) a.load) (p ∷ not_seen) in
      let given = length pages_for_user in
      (
        sorted_difference pages pages_for_user,
        record {
          annotators = keep_able a.user_id (a.load - given) rest;
          users = take_load a.user_id given s.users;
          seen = add_seen a.user_id file_id pages_for_user s.seen;
          tasks = s.tasks ++ new_task settings file_id a.user_id pages_for_user ∷ [];
        },
      )

  abbrev pub turn : List ℕ → List Annotator → Spread F → Call (List ℕ × Spread F)
  turn pages [] s = raises index_error
  turn pages (a ∷ rest) s =
      ok (give_pages pages (sorted_difference pages (seen_pages a.user_id file_id s.seen)) a rest s)

  -- `while pages:`
  pub hand_out : (fuel : ℕ) → List ℕ → Spread F → Call (Spread F)
  hand_out zero pages s = raises out_of_fuel
  hand_out (suc fuel) [] s = ok s
  hand_out (suc fuel) (p ∷ pages) s = do
    (left, s') ← turn (p ∷ pages) s.annotators s
    hand_out fuel left s'

  -- `for _ in range(extensive_coverage)`. Every turn gives a page away or drops an annotator.
  pub cover_file : (coverage : ℕ) → List ℕ → Spread F → Call (Spread F)
  unfolding hand_out
  cover_file zero pages s = ok s
  cover_file (suc coverage) pages s = do
    s' ← hand_out (suc (length pages + length s.annotators)) pages s
    cover_file coverage pages s'

module _ {F : Type 0} (settings : Settings) (coverage : ℕ) where
  pub cover_files : List FileItem → Spread F → Call (Spread F)
  unfolding cover_file
  cover_files [] s = ok s
  cover_files (file ∷ files) s = do
    s' ←
        cover_file settings file.file_id coverage (pages_of_file file)
          (record s { annotators = able_users s.users })
    cover_files files s'

module _ (ops : FloatOps) where
  open ops use {Float}

  -- `fuel` is that of calculate_users_load.
  unfoldable pub distribute_tasks_extensively :
      (fuel : ℕ)
      → List FileItem
      → List (User Float)
      → Settings
      → (extensive_coverage : ℕ) → Call (List Task)
  unfolding cover_files
  distribute_tasks_extensively fuel files users settings coverage = do
    loaded ← calculate_users_load ops fuel files users coverage
    spread ←
        cover_files settings coverage (sort_files files)
          (record { annotators = []; users = loaded; seen = []; tasks = [] })
    ok spread.tasks
