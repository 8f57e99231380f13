-- ===== src/Jobs/Removal/Laws.antt =====
-- What remove_pages_in_work leaves alone.
use badgerdoc.Base.{
  ℕ, ◌+◌, ◌≡◌, refl, ◌∙◌, ap, Bool, true, false, not, ◌&&◌, List, [], ◌∷◌, if◌then◌else◌, ◌==◌,
  contains, count, contains-count, count-filter_by, Bool-cases, inl, inr, arith,
}
use badgerdoc.Distribution.Types.{Task}
use badgerdoc.Jobs.{FileInWork}
use badgerdoc.Jobs.Removal.{
  before, insert_task, sort_tasks, insert_work, sort_work, cut_task, still_to_remove, is_hit,
  pop_and_break, pop_and_go, after_cut, visit_tasks, remove_each, remove_pages_in_work,
}

-- How often the tasks hold a page of a file.
abbrev pub held_by : ℕ → ℕ → Task → ℕ
held_by file_id page task = if file_id == task.file_id then count page task.pages else 0

abbrev pub held : ℕ → ℕ → List Task → ℕ
held file_id page [] = 0
held file_id page (task ∷ tasks) = held_by file_id page task + held file_id page tasks

-- The page of the file is in work.
abbrev pub is_in_work : ℕ → ℕ → List FileInWork → Bool
is_in_work file_id page [] = false
is_in_work file_id page (item ∷ items) =
    if file_id == item.file_id && contains page item.pages_number
    then true
    else is_in_work file_id page items

held-insert_task :
    (f p : ℕ) (task : Task) (tasks : List Task)
    → held f p (insert_task task tasks) ≡ held_by f p task + held f p tasks
held-insert_task f p task [] = refl
held-insert_task f p task (t ∷ tasks) = elim (Bool-cases (before t.pages task.pages)) [
  | inl e ↦ rw e (omega (arith, held-insert_task f p task tasks))
  | inr e ↦ rw e refl
]

held-sort_tasks : (f p : ℕ) (tasks : List Task) → held f p (sort_tasks tasks) ≡ held f p tasks
held-sort_tasks f p [] = refl
held-sort_tasks f p (t ∷ tasks) =
    omega (arith, held-insert_task f p t (sort_tasks tasks), held-sort_tasks f p tasks)

is_in_work-insert_work :
    (f p : ℕ) (item : FileInWork) (items : List FileInWork)
    → is_in_work f p (insert_work item items) ≡ is_in_work f p (item ∷ items)
is_in_work-insert_work f p item [] = refl
is_in_work-insert_work f p item (i ∷ items) =
    elim (Bool-cases (before i.pages_number item.pages_number)) [
      | inl e ↦ rw e (ground (arith, is_in_work-insert_work f p item items))
      | inr e ↦ rw e refl
    ]

is_in_work-sort_work :
    (f p : ℕ) (items : List FileInWork) → is_in_work f p (sort_work items) ≡ is_in_work f p items
is_in_work-sort_work f p [] = refl
is_in_work-sort_work f p (i ∷ items) =
    is_in_work-insert_work f p i (sort_work items) ∙ ground (arith, is_in_work-sort_work f p items)

held-after_cut :
    (f p : ℕ) (t : Task) (left : List ℕ) (whole skipped visited : List Task)
    → held f p skipped ≡ held f p whole
    → held f p visited ≡ held f p whole
    → held f p (after_cut t left whole skipped visited) ≡ held_by f p t + held f p whole
held-after_cut f p t [] whole skipped visited h g = popped t.pages refl
  where
    popped :
        (pages : List ℕ)
        → t.pages ≡ pages
        → held f p (pop_and_break t pages whole) ≡ held_by f p t + held f p whole
    popped [] e = rw e (ground arith)
    popped (q ∷ qs) e = refl
held-after_cut f p t (q ∷ left) whole skipped visited h g = popped t.pages refl
  where
    popped :
        (pages : List ℕ)
        → t.pages ≡ pages
        → held f p (pop_and_go t pages skipped visited) ≡ held_by f p t + held f p whole
    popped [] e = rw e (ground (arith, h))
    popped (r ∷ rs) e = ap (λ n. held_by f p t + n) g

-- The page is none of those to remove from the file.
abbrev IsSpared : ℕ → ℕ → ℕ → List ℕ → Type 0
IsSpared f p file_id to_remove = (f == file_id && contains p to_remove) ≡ false

held_by-cut_task :
    (f p file_id : ℕ) (to_remove : List ℕ) (t : Task)
    → IsSpared f p file_id to_remove
    → is_hit file_id to_remove t ≡ true
    → held_by f p (cut_task to_remove t) ≡ held_by f p t
held_by-cut_task f p file_id to_remove t spared hit =
    ground (arith, count-filter_by p (λ page. not (contains page to_remove)) t.pages, spared, hit)

still_to_remove-IsSpared :
    (f p file_id : ℕ) (to_remove : List ℕ) (t : Task)
    → IsSpared f p file_id to_remove
    → IsSpared f p file_id (still_to_remove to_remove t)
still_to_remove-IsSpared f p file_id to_remove t spared = ground (
  arith,
  count-filter_by p (λ page. not (contains page t.pages)) to_remove,
  contains-count p (still_to_remove to_remove t),
  contains-count p to_remove,
  spared,
)

held-visit_tasks :
    (f p file_id : ℕ) (to_remove : List ℕ) (tasks : List Task)
    → IsSpared f p file_id to_remove
    → held f p (visit_tasks file_id to_remove tasks) ≡ held f p tasks
unfolding visit_tasks
held-visit_tasks f p file_id to_remove [] spared = refl
held-visit_tasks f p file_id to_remove (t ∷ []) spared =
    elim (Bool-cases (is_hit file_id to_remove t)) [
      | inl e ↦ rw e (
          held-after_cut f p (cut_task to_remove t) (still_to_remove to_remove t) [] [] [] refl refl
          ∙ ap (λ n. n + 0) (held_by-cut_task f p file_id to_remove t spared e))
      | inr e ↦ rw e refl
    ]
held-visit_tasks f p file_id to_remove (t ∷ u ∷ tasks) spared =
    let left = still_to_remove to_remove t in
    let spared' = still_to_remove-IsSpared f p file_id to_remove t spared in
    elim (Bool-cases (is_hit file_id to_remove t)) [
      | inl e ↦ rw e (
          held-after_cut f p (cut_task to_remove t) left (u ∷ tasks) _ _
            (ap (λ n. held_by f p u + n) (held-visit_tasks f p file_id left tasks spared'))
            (held-visit_tasks f p file_id left (u ∷ tasks) spared')
          ∙ ap (λ n. n + held f p (u ∷ tasks)) (held_by-cut_task f p file_id to_remove t spared e))
      | inr e ↦
          rw e (
            ap (λ n. held_by f p t + n) (held-visit_tasks f p file_id to_remove (u ∷ tasks) spared))
    ]

held-remove_each :
    (f p : ℕ) (tasks : List Task) (items : List FileInWork)
    → is_in_work f p items ≡ false
    → held f p (remove_each tasks items) ≡ held f p tasks
unfolding remove_each
held-remove_each f p tasks [] h = refl
held-remove_each f p tasks (item ∷ items) h =
    held-remove_each f p (visit_tasks item.file_id item.pages_number tasks) items
      (ground (arith, h))
    ∙ held-visit_tasks f p item.file_id item.pages_number tasks (ground (arith, h))

-- A page of a file that is not in work stays in the tasks as often as it was there: neither the sorting, nor
-- the removal of other pages, nor a popped task, nor the task that is skipped behind it loses one.
pub remove_pages_in_work-held :
    (file_id page : ℕ) (tasks : List Task) (pages_in_work : List FileInWork)
    → is_in_work file_id page pages_in_work ≡ false
    → held file_id page (remove_pages_in_work tasks pages_in_work) ≡ held file_id page tasks
unfolding remove_pages_in_work
remove_pages_in_work-held file_id page tasks pages_in_work h =
    held-remove_each file_id page (sort_tasks tasks) (sort_work pages_in_work)
      (is_in_work-sort_work file_id page pages_in_work ∙ h)
    ∙ held-sort_tasks file_id page tasks
