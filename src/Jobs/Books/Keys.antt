-- ===== src/Jobs/Books/Keys.antt =====
-- The ids of the tasks are keys: the rows are in the order of their ids.
use badgerdoc.Base.{
  ℕ, suc, ◌+◌, ◌≤◌, ◌<◌, ◌≡◌, refl, sym, subst, Bool, true, some, List, [], ◌∷◌, ◌++◌, ◌==◌, ==_iff,
  filter_by, All, Bool-cases, inl, inr, length, arith,
}
use badgerdoc.Distribution.Types.{Task}
use badgerdoc.Annotations.Tables.{TaskRow}
use badgerdoc.Jobs.Books.{new_rows, find_row, finish_row}
use badgerdoc.Jobs.Books.Files.{IsRowOf}

-- The ids are increasing, from `lo` to below `hi`.
abbrev pub IsKeyed : ℕ → ℕ → List TaskRow → Type 0
IsKeyed lo hi [] = lo ≤ hi
IsKeyed lo hi (task ∷ tasks) = (lo ≤ task.id) × IsKeyed (suc task.id) hi tasks

IsKeyed_lower :
    (lo lo' hi : ℕ) (tasks : List TaskRow) → lo ≤ lo' → IsKeyed lo' hi tasks → IsKeyed lo hi tasks
IsKeyed_lower lo lo' hi [] l k = omega (arith, l, k)
IsKeyed_lower lo lo' hi (task ∷ tasks) l k = (omega (arith, l, k.0), k.1)

new_rows-IsKeyed : (id : ℕ) (new : List Task) → IsKeyed id (id + length new) (new_rows id new)
new_rows-IsKeyed id [] = omega arith
new_rows-IsKeyed id (task ∷ new) = (
  omega arith,
  subst (λ n. IsKeyed (suc id) n (new_rows (suc id) new)) (omega arith)
      (new_rows-IsKeyed (suc id) new),
)

pub append-IsKeyed :
    (lo id : ℕ) (tasks : List TaskRow) (new : List Task)
    → IsKeyed lo id tasks
    → IsKeyed lo (id + length new) (tasks ++ new_rows id new)
append-IsKeyed lo id [] new k =
    IsKeyed_lower lo id (id + length new) (new_rows id new) k (new_rows-IsKeyed id new)
append-IsKeyed lo id (task ∷ tasks) new k = (k.0, append-IsKeyed (suc task.id) id tasks new k.1)

pub filter_by-IsKeyed :
    (keep : TaskRow → Bool) (lo hi : ℕ) (tasks : List TaskRow)
    → IsKeyed lo hi tasks
    → IsKeyed lo hi (filter_by keep tasks)
filter_by-IsKeyed keep lo hi [] k = k
filter_by-IsKeyed keep lo hi (task ∷ tasks) k = elim (Bool-cases (keep task)) [
  | inl e ↦ rw e (k.0, filter_by-IsKeyed keep (suc task.id) hi tasks k.1)
  | inr e ↦ rw e (
      IsKeyed_lower lo (suc task.id) hi (filter_by keep tasks) (omega (arith, k.0))
        (filter_by-IsKeyed keep (suc task.id) hi tasks k.1))
]

pub finish_row-IsKeyed :
    (id lo hi : ℕ) (tasks : List TaskRow)
    → IsKeyed lo hi tasks
    → IsKeyed lo hi (finish_row id tasks)
finish_row-IsKeyed id lo hi [] k = k
finish_row-IsKeyed id lo hi (task ∷ tasks) k = elim (Bool-cases (task.id == id)) [
  | inl e ↦ rw e (k.0, finish_row-IsKeyed id (suc task.id) hi tasks k.1)
  | inr e ↦ rw e (k.0, finish_row-IsKeyed id (suc task.id) hi tasks k.1)
]

-- No row from `lo` on has a lower id.
IsRowOf-below :
    (task : TaskRow) (lo hi : ℕ) (tasks : List TaskRow)
    → task.id < lo
    → IsKeyed lo hi tasks
    → All (IsRowOf task) tasks
IsRowOf-below task lo hi [] l k = tt
IsRowOf-below task lo hi (t ∷ tasks) l k = (
  λ e. absurd (ground (arith, e, l, k.0)),
  IsRowOf-below task (suc t.id) hi tasks (omega (arith, l, k.0)) k.1,
)

IsRowOf-above :
    (t : TaskRow) (lo hi : ℕ) (tasks rest : List TaskRow)
    → t.id < lo
    → IsKeyed lo hi rest
    → All (λ task. All (IsRowOf task) tasks) rest
    → All (λ task. All (IsRowOf task) (t ∷ tasks)) rest
IsRowOf-above t lo hi tasks [] l k h = tt
IsRowOf-above t lo hi tasks (task ∷ rest) l k h = (
  (λ e. absurd (ground (arith, e, l, k.0)), h.0),
  IsRowOf-above t (suc task.id) hi tasks rest (omega (arith, l, k.0)) k.1 h.1,
)

pub IsKeyed-IsRowOf :
    (lo hi : ℕ) (tasks : List TaskRow)
    → IsKeyed lo hi tasks
    → All (λ task. All (IsRowOf task) tasks) tasks
IsKeyed-IsRowOf lo hi [] k = tt
IsKeyed-IsRowOf lo hi (task ∷ tasks) k = (
  (λ _. (refl, refl, refl), IsRowOf-below task (suc task.id) hi tasks (omega arith) k.1),
  IsRowOf-above task (suc task.id) hi tasks tasks (omega arith) k.1
      (IsKeyed-IsRowOf (suc task.id) hi tasks k.1),
)

module _ (P : TaskRow → Type 0) where
  pub All-filter_by :
      (keep : TaskRow → Bool) (tasks : List TaskRow) → All P tasks → All P (filter_by keep tasks)
  All-filter_by keep [] h = tt
  All-filter_by keep (task ∷ tasks) h = elim (Bool-cases (keep task)) [
    | inl e ↦ rw e (h.0, All-filter_by keep tasks h.1)
    | inr e ↦ rw e (All-filter_by keep tasks h.1)
  ]

  pub All-find_row :
      (id : ℕ) (task : TaskRow) (tasks : List TaskRow)
      → find_row id tasks ≡ some task
      → All P tasks
      → P task
  All-find_row id task [] e h = absurd (cc)
  All-find_row id task (t ∷ tasks) e h = elim (Bool-cases (t.id == id)) [
    | inl s ↦ subst P (ground (arith, e, s)) h.0
    | inr s ↦ All-find_row id task tasks (ground (arith, e, s)) h.1
  ]

pub find_row-id :
    (id : ℕ) (task : TaskRow) (tasks : List TaskRow) → find_row id tasks ≡ some task → id ≡ task.id
find_row-id id task [] e = absurd (cc)
find_row-id id task (t ∷ tasks) e = elim (Bool-cases (t.id == id)) [
  | inl s ↦
      let same : t ≡ task = ground (arith, e, s) in
      sym ((==_iff task.id id).0 (subst (λ (r : TaskRow). (r.id == id) ≡ true) same s))
  | inr s ↦ find_row-id id task tasks (ground (arith, e, s))
]
