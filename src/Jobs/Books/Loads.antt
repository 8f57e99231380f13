-- ===== src/Jobs/Books/Loads.antt =====
-- The overall load of a user is the number of the pages of the user's unfinished tasks.
use badgerdoc.Base.{
  ℕ, suc, ◌+◌, ◌≡◌, refl, ◌∙◌, ap, sym, true, false, not, ◌&&◌, List, [], ◌∷◌, ◌++◌, if◌then◌else◌,
  ◌==◌, ==_iff, contains, contains-append, filter_by, All, Bool-cases, inl, inr, length, arith,
}
use badgerdoc.Distribution.Types.{Task}
use badgerdoc.Annotations.Tables.{TaskRow}
use badgerdoc.Annotations.Accumulate.Laws.{contains-filter_by}
use badgerdoc.Jobs.Books.{
  UserRow, is_finished, unfinished_pages, set_load, new_rows, users_of, owners_of, finish_row,
}
use badgerdoc.Jobs.Books.Files.{IsRowOf, without}

-- The load of the user is right, unless it is still to be updated.
pub record IsLoaded (stale : List ℕ) (tasks : List TaskRow) (user : UserRow) : Type 0 where
  pub load :
      contains user.user_id stale ≡ false → user.overall_load ≡ unfinished_pages user.user_id tasks

-- The users of `stale` that are not among the others.
abbrev pub unlisted : List ℕ → List ℕ → List ℕ
unlisted ids = filter_by (λ u. not (contains u ids))

pub contains-unlisted :
    (u : ℕ) (ids stale : List ℕ)
    → contains u (unlisted ids stale) ≡ contains u stale && not (contains u ids)
contains-unlisted u ids stale = contains-filter_by u (λ u. not (contains u ids)) stale

-- More users may be left out.
pub IsLoaded-weaken :
    (stale left : List ℕ) (tasks : List TaskRow) (users : List UserRow)
    → ((u : ℕ) → contains u left ≡ false → contains u stale ≡ false)
    → All (IsLoaded stale tasks) users
    → All (IsLoaded left tasks) users
IsLoaded-weaken stale left tasks [] m h = tt
IsLoaded-weaken stale left tasks (u ∷ users) m h = (
  record { load = λ fresh. h.0.load (m u.user_id fresh) },
  IsLoaded-weaken stale left tasks users m h.1,
)

pub set_load-IsLoaded :
    (id : ℕ) (stale : List ℕ) (tasks : List TaskRow) (users : List UserRow)
    → All (IsLoaded stale tasks) users
    → All
        (IsLoaded (unlisted (id ∷ []) stale) tasks)
        (set_load id (unfinished_pages id tasks) users)
set_load-IsLoaded id stale tasks [] h = tt
set_load-IsLoaded id stale tasks (u ∷ users) h = (
  elim (Bool-cases (u.user_id == id)) [
    | inl e ↦ rw e (record {
      load = λ _. ap (λ i. unfinished_pages i tasks) (sym ((==_iff u.user_id id).0 e));
    })
    | inr e ↦ rw e (record {
      load =
          λ fresh. h.0.load (ground (arith, fresh, e, contains-unlisted u.user_id (id ∷ []) stale));
    })
  ],
  set_load-IsLoaded id stale tasks users h.1,
)

pub contains-append-false :
    (u : ℕ) (xs ys : List ℕ)
    → contains u (xs ++ ys) ≡ false
    → (contains u xs ≡ false) × (contains u ys ≡ false)
contains-append-false u xs ys h =
    (ground (arith, h, contains-append u xs ys), ground (arith, h, contains-append u xs ys))

unfinished_pages-append :
    (u : ℕ) (xs ys : List TaskRow)
    → unfinished_pages u (xs ++ ys) ≡ unfinished_pages u xs + unfinished_pages u ys
unfinished_pages-append u [] ys = omega arith
unfinished_pages-append u (x ∷ xs) ys = omega (arith, unfinished_pages-append u xs ys)

unfinished_pages-new_rows :
    (u id : ℕ) (new : List Task)
    → contains u (users_of new) ≡ false
    → unfinished_pages u (new_rows id new) ≡ 0
unfinished_pages-new_rows u id [] h = refl
unfinished_pages-new_rows u id (task ∷ new) h =
    ground (arith, h, unfinished_pages-new_rows u (suc id) new)

-- New tasks change the loads of their users only.
pub new_rows-IsLoaded :
    (id : ℕ) (new : List Task) (stale : List ℕ) (tasks : List TaskRow) (users : List UserRow)
    → All (IsLoaded stale tasks) users
    → All (IsLoaded (users_of new ++ stale) (tasks ++ new_rows id new)) users
new_rows-IsLoaded id new stale tasks [] h = tt
new_rows-IsLoaded id new stale tasks (u ∷ users) h = (
  record {
    load = λ fresh.
        let (given, known) = contains-append-false u.user_id (users_of new) stale fresh in
        omega (
          arith,
          h.0.load known,
          unfinished_pages-append u.user_id tasks (new_rows id new),
          unfinished_pages-new_rows u.user_id id new given,
        );
  },
  new_rows-IsLoaded id new stale tasks users h.1,
)

without-unfinished_pages :
    (u : ℕ) (task : TaskRow) (tasks : List TaskRow)
    → All (IsRowOf task) tasks
    → (task.user_id == u) ≡ false
    → unfinished_pages u (without task tasks) ≡ unfinished_pages u tasks
without-unfinished_pages u task [] h e = refl
without-unfinished_pages u task (t ∷ tasks) h e = elim (Bool-cases (t.id == task.id)) [
  | inl s ↦ rw s (ground (arith, without-unfinished_pages u task tasks h.1 e, h.0 s, e))
  | inr s ↦ rw s (
      ap (λ n. (if t.user_id == u && not (is_finished t.status) then length t.pages else 0) + n)
        (without-unfinished_pages u task tasks h.1 e))
]

contains-user :
    (u v : ℕ) (stale : List ℕ)
    → contains v stale ≡ true
    → contains u stale ≡ false
    → (v == u) ≡ false
contains-user u v stale h e = elim (Bool-cases (v == u)) [
  | inl s ↦ absurd (ground (arith, h, e, ap (λ w. contains w stale) ((==_iff v u).0 s)))
  | inr s ↦ s
]

-- The deletion of a task changes the load of its user only.
pub without-IsLoaded :
    (stale : List ℕ) (task : TaskRow) (tasks : List TaskRow) (users : List UserRow)
    → All (IsRowOf task) tasks
    → contains task.user_id stale ≡ true
    → All (IsLoaded stale tasks) users
    → All (IsLoaded stale (without task tasks)) users
without-IsLoaded stale task tasks [] r c h = tt
without-IsLoaded stale task tasks (u ∷ users) r c h = (
  record {
    load = λ fresh.
        h.0.load fresh
        ∙ sym (
            without-unfinished_pages u.user_id task tasks r
              (contains-user u.user_id task.user_id stale c fresh));
  },
  without-IsLoaded stale task tasks users r c h.1,
)

abbrev pub AreOwned : List ℕ → List TaskRow → Type 0
AreOwned stale = All (λ task. contains task.user_id stale ≡ true)

AreOwned-more :
    (id : ℕ) (stale : List ℕ) (tasks : List TaskRow)
    → AreOwned stale tasks
    → AreOwned (id ∷ stale) tasks
AreOwned-more id stale [] h = tt
AreOwned-more id stale (t ∷ tasks) h = (ground (arith, h.0), AreOwned-more id stale tasks h.1)

pub owners_of-AreOwned :
    (stale : List ℕ) (tasks : List TaskRow) → AreOwned (owners_of tasks ++ stale) tasks
owners_of-AreOwned stale [] = tt
owners_of-AreOwned stale (t ∷ tasks) = (
  ground (arith, (==_iff t.user_id t.user_id).1 refl),
  AreOwned-more t.user_id (owners_of tasks ++ stale) tasks (owners_of-AreOwned stale tasks),
)

-- The end of a task changes the load of its user only.
finish_row-unfinished_pages :
    (u : ℕ) (task : TaskRow) (tasks : List TaskRow)
    → All (IsRowOf task) tasks
    → (task.user_id == u) ≡ false
    → unfinished_pages u (finish_row task.id tasks) ≡ unfinished_pages u tasks
finish_row-unfinished_pages u task [] h e = refl
finish_row-unfinished_pages u task (t ∷ tasks) h e = elim (Bool-cases (t.id == task.id)) [
  | inl s ↦ rw s (ground (arith, finish_row-unfinished_pages u task tasks h.1 e, h.0 s, e))
  | inr s ↦ rw s (
      ap (λ n. (if t.user_id == u && not (is_finished t.status) then length t.pages else 0) + n)
        (finish_row-unfinished_pages u task tasks h.1 e))
]

pub finish_row-IsLoaded :
    (task : TaskRow) (stale : List ℕ) (tasks : List TaskRow) (users : List UserRow)
    → All (IsRowOf task) tasks
    → All (IsLoaded stale tasks) users
    → All (IsLoaded (task.user_id ∷ stale) (finish_row task.id tasks)) users
finish_row-IsLoaded task stale tasks [] r h = tt
finish_row-IsLoaded task stale tasks (u ∷ users) r h = (
  record {
    load = λ fresh.
        h.0.load (ground (arith, fresh))
        ∙ sym (finish_row-unfinished_pages u.user_id task tasks r (ground (arith, fresh)));
  },
  finish_row-IsLoaded task stale tasks users r h.1,
)
