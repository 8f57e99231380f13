-- ===== src/Tests/Removal.antt =====
-- Pages in work are taken out of the tasks of a new distribution.
use badgerdoc.Base.{ℕ, ◌≡◌, refl, none, List, [], ◌∷◌, false}
use badgerdoc.Distribution.Types.{Task, pending}
use badgerdoc.Jobs.{FileInWork}
use badgerdoc.Jobs.Removal.{visit_tasks, remove_each, remove_pages_in_work}
use badgerdoc.Jobs.Removal.Laws.{held, remove_pages_in_work-held}

abbrev new_pages : ℕ → List ℕ → Task
new_pages user pages = record {
  file_id = 7;
  pages = pages;
  job_id = 5;
  user_id = user;
  is_validation = false;
  status = pending;
  deadline = none;
}

abbrev in_work_of : List ℕ → FileInWork
in_work_of pages = record { file_id = 7; pages_number = pages }

-- The first task is popped, and the second is skipped: its page 2 is not removed.
removal_skips :
    remove_pages_in_work
      (new_pages 1 (1 ∷ []) ∷ new_pages 2 (2 ∷ 3 ∷ []) ∷ [])
      (in_work_of (1 ∷ 2 ∷ []) ∷ [])
    ≡ new_pages 2 (2 ∷ 3 ∷ []) ∷ []
unfolding remove_pages_in_work remove_each visit_tasks
removal_skips = refl

remove_pages_in_work-held_example :
    held 7 3 (
      remove_pages_in_work
        (new_pages 1 (1 ∷ []) ∷ new_pages 2 (2 ∷ 3 ∷ []) ∷ [])
        (in_work_of (1 ∷ 2 ∷ []) ∷ []))
    ≡ 1
remove_pages_in_work-held_example =
    remove_pages_in_work-held 7 3 (new_pages 1 (1 ∷ []) ∷ new_pages 2 (2 ∷ 3 ∷ []) ∷ [])
      (in_work_of (1 ∷ 2 ∷ []) ∷ []) refl
