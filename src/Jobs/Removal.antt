-- ===== src/Jobs/Removal.antt =====
-- annotation/annotation/jobs/services.py: remove_pages_in_work, which takes the pages in work out of the tasks
-- of a new distribution, in place.
pub mod Laws
use badgerdoc.Base.{
  ℕ, Bool, true, false, not, ◌&&◌, List, [], ◌∷◌, if◌then◌else◌, ◌==◌, ltb, contains, filter_by,
  any_by,
}
use badgerdoc.Distribution.Types.{Task}
use badgerdoc.Jobs.{FileInWork}

-- `<` on lists of numbers.
abbrev pub before : List ℕ → List ℕ → Bool
before [] [] = false
before [] (y ∷ ys) = true
before (x ∷ xs) [] = false
before (x ∷ xs) (y ∷ ys) =
    let rest = before xs ys in if ltb x y then true else if x == y then rest else false

-- `tasks.sort(key=lambda x: x["pages"])`, which is stable.
abbrev pub insert_task : Task → List Task → List Task
insert_task task [] = task ∷ []
insert_task task (t ∷ tasks) =
    let later = insert_task task tasks in
    if before t.pages task.pages then t ∷ later else task ∷ t ∷ tasks

abbrev pub sort_tasks : List Task → List Task
sort_tasks [] = []
sort_tasks (task ∷ tasks) = insert_task task (sort_tasks tasks)

-- `pages_in_work.sort(key=lambda x: x["pages_number"])`
abbrev pub insert_work : FileInWork → List FileInWork → List FileInWork
insert_work item [] = item ∷ []
insert_work item (i ∷ items) =
    let later = insert_work item items in
    if before i.pages_number item.pages_number then i ∷ later else item ∷ i ∷ items

abbrev pub sort_work : List FileInWork → List FileInWork
sort_work [] = []
sort_work (item ∷ items) = insert_work item (sort_work items)

-- The pages of the task without those to remove, and those that are still to remove.
abbrev pub cut_task : List ℕ → Task → Task
cut_task pages_to_remove task = record task {
  pages = filter_by (λ page. not (contains page pages_to_remove)) task.pages;
}

abbrev pub still_to_remove : List ℕ → Task → List ℕ
still_to_remove pages_to_remove task =
    filter_by (λ page. not (contains page task.pages)) pages_to_remove

abbrev pub is_hit : ℕ → List ℕ → Task → Bool
is_hit file_id pages_to_remove task =
    file_id == task.file_id && any_by (λ page. contains page task.pages) pages_to_remove

-- `if not task["pages"]: tasks.pop(index)`, before a break and before the next turn of the loop. The pop makes
-- the enumeration skip the task behind.
abbrev pub pop_and_break : Task → List ℕ → (whole : List Task) → List Task
pop_and_break task [] whole = whole
pop_and_break task (p ∷ ps) whole = task ∷ whole

abbrev pub pop_and_go : Task → List ℕ → (skipped visited : List Task) → List Task
pop_and_go task [] skipped visited = skipped
pop_and_go task (p ∷ ps) skipped visited = task ∷ visited

-- The end of the loop body for a task that was cut: with nothing left to remove the later tasks stay as they
-- are; else they are visited, behind the next one or all of them.
abbrev pub after_cut : Task → (left : List ℕ) → (whole skipped visited : List Task) → List Task
after_cut task [] whole skipped visited = pop_and_break task task.pages whole
after_cut task (p ∷ left) whole skipped visited = pop_and_go task task.pages skipped visited

-- The loop over the tasks for one item of the pages in work.
unfoldable pub visit_tasks : ℕ → List ℕ → List Task → List Task
visit_tasks file_id to_remove [] = []
visit_tasks file_id to_remove (t ∷ []) =
    if is_hit file_id to_remove t
    then after_cut (cut_task to_remove t) (still_to_remove to_remove t) [] [] []
    else t ∷ []
visit_tasks file_id to_remove (t ∷ u ∷ tasks) =
    let left = still_to_remove to_remove t in
    let visited = visit_tasks file_id left (u ∷ tasks) in
    let behind = visit_tasks file_id left tasks in
    let unhit = visit_tasks file_id to_remove (u ∷ tasks) in
    if is_hit file_id to_remove t
    then after_cut (cut_task to_remove t) left (u ∷ tasks) (u ∷ behind) visited
    else t ∷ unhit

unfoldable pub remove_each : List Task → List FileInWork → List Task
unfolding visit_tasks
remove_each tasks [] = tasks
remove_each tasks (item ∷ pages_in_work) =
    remove_each (visit_tasks item.file_id item.pages_number tasks) pages_in_work

unfoldable pub remove_pages_in_work : List Task → List FileInWork → List Task
remove_pages_in_work tasks pages_in_work = remove_each (sort_tasks tasks) (sort_work pages_in_work)
