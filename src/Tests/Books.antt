-- ===== src/Tests/Books.antt =====
-- Tasks of a job are created, finished and deleted; the file and the users follow.
use badgerdoc.Base.{ℕ, ◌≡◌, refl, none, Bool, true, false, List, [], ◌∷◌}
use badgerdoc.Distribution.Types.{Task, TaskStatus, pending, finished}
use badgerdoc.Annotations.Tables.{TaskRow}
use badgerdoc.Jobs.Books.{
  Books, UserRow, FileRow, unreached, told, create_tasks, close_task, delete_tasks,
  delete_tasks_for_removed_users,
}

abbrev task_of : ℕ → List ℕ → Bool → Task
task_of user pages is_validation = record {
  file_id = 7;
  pages = pages;
  job_id = 5;
  user_id = user;
  is_validation = is_validation;
  status = pending;
  deadline = none;
}

abbrev load : ℕ → ℕ → UserRow
load user pages = record { user_id = user; overall_load = pages }

abbrev file_row : List ℕ → List ℕ → FileRow
file_row annotating validating = record {
  job_id = 5;
  file_id = 7;
  pages_number = 3;
  distributed_annotating_pages = annotating;
  distributed_validating_pages = validating;
}

abbrev books : Books
books = record {
  tasks = [];
  next_id = 1;
  files = file_row [] [] ∷ [];
  users = load 1 0 ∷ load 2 0 ∷ [];
}

abbrev new_tasks : List Task
new_tasks = task_of 1 (2 ∷ 1 ∷ []) false ∷ task_of 2 (3 ∷ []) false ∷ task_of 2 (1 ∷ []) true ∷ []

abbrev row : ℕ → ℕ → List ℕ → Bool → TaskStatus → TaskRow
row id user pages is_validation status = record {
  id = id;
  file_id = 7;
  pages = pages;
  job_id = 5;
  user_id = user;
  is_validation = is_validation;
  status = status;
}

books_created : create_tasks new_tasks 5 books ≡ record {
  tasks =
      row 1 1 (2 ∷ 1 ∷ []) false pending
      ∷ row 2 2 (3 ∷ []) false pending
      ∷ row 3 2 (1 ∷ []) true pending
      ∷ [];
  next_id = 4;
  files = file_row (1 ∷ 2 ∷ 3 ∷ []) (1 ∷ []) ∷ [];
  users = load 1 2 ∷ load 2 2 ∷ [];
}
unfolding create_tasks
books_created = refl

-- The second task is finished, and the second user is removed from the job: the third task goes.
abbrev books_after : Books
books_after =
    (delete_tasks_for_removed_users (2 ∷ []) 5
      (close_task unreached 2 (create_tasks new_tasks 5 books))).1

books_removed : books_after ≡ record {
  tasks = row 1 1 (2 ∷ 1 ∷ []) false pending ∷ row 2 2 (3 ∷ []) false finished ∷ [];
  next_id = 4;
  files = file_row (1 ∷ 2 ∷ 3 ∷ []) [] ∷ [];
  users = load 1 2 ∷ load 2 0 ∷ [];
}
unfolding create_tasks close_task delete_tasks delete_tasks_for_removed_users
books_removed = refl

-- User 1 finishes the first task and the agreement is reached: the validation task of user 2 is finished too,
-- but its page stays in the load of user 2.
abbrev books_agreed : Books
books_agreed = close_task told 1 (create_tasks new_tasks 5 books)

books_left_behind : books_agreed ≡ record {
  tasks =
      row 1 1 (2 ∷ 1 ∷ []) false finished
      ∷ row 2 2 (3 ∷ []) false pending
      ∷ row 3 2 (1 ∷ []) true finished
      ∷ [];
  next_id = 4;
  files = file_row (1 ∷ 2 ∷ 3 ∷ []) (1 ∷ []) ∷ [];
  users = load 1 0 ∷ load 2 2 ∷ [];
}
unfolding create_tasks close_task
books_left_behind = refl
