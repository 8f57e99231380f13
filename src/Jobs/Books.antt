-- ===== src/Jobs/Books.antt =====
-- annotation/annotation/jobs/services.py and tasks/services.py: the creation and the deletion of tasks, which
-- keep the distributed pages of every file and the overall load of every user up to date.
pub mod Files
pub mod Loads
pub mod Keys
pub mod Validators
pub mod Laws
use badgerdoc.Base.{
  ℕ, suc, ◌+◌, Bool, true, false, not, ◌&&◌, Option, none, some, List, [], ◌∷◌, ◌++◌, if◌then◌else◌,
  ◌==◌, contains, filter_by, any_by, length,
}
use badgerdoc.Distribution.Types.{TaskStatus, pending, ready, in_progress, finished, Task}
use badgerdoc.Distribution.Extensive.{sorted_set}
use badgerdoc.Annotations.Tables.{TaskRow}

-- The columns of models.File that this code reads and writes.
pub record FileRow : Type 0 where
  pub job_id : ℕ
  pub file_id : ℕ
  pub pages_number : ℕ
  pub distributed_annotating_pages : List ℕ
  pub distributed_validating_pages : List ℕ

pub record UserRow : Type 0 where
  pub user_id : ℕ
  pub overall_load : ℕ

-- The tables; `next_id` is the primary key that the database gives to the next task.
pub record Books : Type 0 where
  pub tasks : List TaskRow
  pub next_id : ℕ
  pub files : List FileRow
  pub users : List UserRow

abbrev pub is_finished : TaskStatus → Bool
is_finished pending = false
is_finished ready = false
is_finished in_progress = false
is_finished finished = true

-- `sum(len(task.pages) for task in all_user_tasks if task.status != finished)`
abbrev pub unfinished_pages : ℕ → List TaskRow → ℕ
unfinished_pages user_id [] = 0
unfinished_pages user_id (task ∷ tasks) =
    (if task.user_id == user_id && not (is_finished task.status) then length task.pages else 0)
    + unfinished_pages user_id tasks

-- `db.query(User).get(user_id)`; the user of a task is there by its foreign key.
abbrev pub set_load : ℕ → ℕ → List UserRow → List UserRow
set_load user_id pages [] = []
set_load user_id pages (user ∷ users) =
    (if user.user_id == user_id then record user { overall_load = pages } else user)
    ∷ set_load user_id pages users

abbrev pub update_user_overall_load : ℕ → Books → Books
update_user_overall_load user_id books = record books {
  users = set_load user_id (unfinished_pages user_id books.tasks) books.users;
}

-- `for user_id in user_ids`; the order and a repetition of a user make no difference.
abbrev pub update_loads : List ℕ → Books → Books
update_loads [] books = books
update_loads (user_id ∷ user_ids) books =
    update_loads user_ids (update_user_overall_load user_id books)

-- bulk_insert_mappings.
abbrev pub new_row : ℕ → Task → TaskRow
new_row id task = record {
  id = id;
  file_id = task.file_id;
  pages = task.pages;
  job_id = task.job_id;
  user_id = task.user_id;
  is_validation = task.is_validation;
  status = task.status;
}

abbrev pub new_rows : ℕ → List Task → List TaskRow
new_rows id [] = []
new_rows id (task ∷ tasks) = new_row id task ∷ new_rows (suc id) tasks

-- file_pages[file_id][0] of update_files for validation, and file_pages[file_id][1] for annotation.
abbrev pub pages_given : Bool → ℕ → List Task → List ℕ
pages_given is_validation file_id [] = []
pages_given is_validation file_id (task ∷ tasks) =
    let rest = pages_given is_validation file_id tasks in
    if task.file_id == file_id
      && (if is_validation then task.is_validation else not task.is_validation)
    then task.pages ++ rest
    else rest

-- `File.file_id.in_(list(file_pages)), File.job_id == job_id`
abbrev pub is_given : List Task → ℕ → FileRow → Bool
is_given tasks job_id file =
    file.job_id == job_id && any_by (λ task. task.file_id == file.file_id) tasks

abbrev pub extend_file : List Task → FileRow → FileRow
extend_file tasks file = record file {
  distributed_validating_pages =
      sorted_set (pages_given true file.file_id tasks ++ file.distributed_validating_pages);
  distributed_annotating_pages =
      sorted_set (pages_given false file.file_id tasks ++ file.distributed_annotating_pages);
}

abbrev pub update_files : List Task → ℕ → List FileRow → List FileRow
update_files tasks job_id [] = []
update_files tasks job_id (file ∷ files) =
    (if is_given tasks job_id file then extend_file tasks file else file)
    ∷ update_files tasks job_id files

abbrev pub users_of : List Task → List ℕ
users_of [] = []
users_of (task ∷ tasks) = task.user_id ∷ users_of tasks

-- The first change of create_tasks: the rows and the files.
abbrev pub add_tasks : List Task → ℕ → Books → Books
add_tasks tasks job_id books = record books {
  tasks = books.tasks ++ new_rows books.next_id tasks;
  next_id = books.next_id + length tasks;
  files = update_files tasks job_id books.files;
}

unfoldable pub create_tasks : List Task → (job_id : ℕ) → Books → Books
create_tasks tasks job_id books = update_loads (users_of tasks) (add_tasks tasks job_id books)

-- The pages of the tasks of one kind for a file, with repetitions.
abbrev pub task_pages : Bool → ℕ → ℕ → List TaskRow → List ℕ
task_pages is_validation job_id file_id [] = []
task_pages is_validation job_id file_id (task ∷ tasks) =
    let rest = task_pages is_validation job_id file_id tasks in
    if task.job_id == job_id
      && task.file_id == file_id
      && (if is_validation then task.is_validation else not task.is_validation)
    then task.pages ++ rest
    else rest

abbrev pub recalculate_file_pages : List TaskRow → FileRow → FileRow
recalculate_file_pages tasks file = record file {
  distributed_annotating_pages = sorted_set (task_pages false file.job_id file.file_id tasks);
  distributed_validating_pages = sorted_set (task_pages true file.job_id file.file_id tasks);
}

-- The file of the task, if there is one.
abbrev pub recalculate : TaskRow → List TaskRow → List FileRow → List FileRow
recalculate task tasks [] = []
recalculate task tasks (file ∷ files) =
    (if file.job_id == task.job_id && file.file_id == task.file_id
      then recalculate_file_pages tasks file
      else file)
    ∷ recalculate task tasks files

-- The body of the loop of delete_tasks.
abbrev pub delete_task : TaskRow → Books → Books
delete_task task books =
    let tasks = filter_by (λ t. not (t.id == task.id)) books.tasks in
    record books { tasks = tasks; files = recalculate task tasks books.files }

-- The loop of delete_tasks, over a set in any order.
abbrev pub delete_each : List TaskRow → Books → Books
delete_each [] books = books
delete_each (task ∷ tasks) books = delete_each tasks (delete_task task books)

abbrev pub owners_of : List TaskRow → List ℕ
owners_of [] = []
owners_of (task ∷ tasks) = task.user_id ∷ owners_of tasks

unfoldable pub delete_tasks : List TaskRow → Books → Books
delete_tasks tasks books = update_loads (owners_of tasks) (delete_each tasks books)

-- The unfinished tasks of removed users in a job.
abbrev pub tasks_to_drop : List ℕ → ℕ → List TaskRow → List TaskRow
tasks_to_drop users job_id =
    filter_by (λ task.
      task.job_id == job_id && contains task.user_id users && not (is_finished task.status))

-- The tasks that are deleted are gone behind it; the finished ones are returned.
unfoldable pub delete_tasks_for_removed_users : List ℕ → ℕ → Books → List TaskRow × Books
unfolding delete_tasks
delete_tasks_for_removed_users users job_id books = (
  filter_by
      (λ task. task.job_id == job_id && contains task.user_id users && is_finished task.status)
      books.tasks,
  delete_tasks (tasks_to_drop users job_id books.tasks) books,
)

abbrev pub find_row : ℕ → List TaskRow → Option TaskRow
find_row id [] = none
find_row id (task ∷ tasks) = if task.id == id then some task else find_row id tasks

-- `task.status = TaskStatusEnumSchema.finished`
abbrev pub finish_row : ℕ → List TaskRow → List TaskRow
finish_row id [] = []
finish_row id (task ∷ tasks) =
    (if task.id == id then record task { status = finished } else task) ∷ finish_row id tasks

-- `job_id == task.job_id, file_id == task.file_id, is_validation.is_(True)`
abbrev pub is_validation_of : TaskRow → TaskRow → Bool
is_validation_of task t = t.job_id == task.job_id && t.file_id == task.file_id && t.is_validation

abbrev pub finish_validation_rows : TaskRow → List TaskRow → List TaskRow
finish_validation_rows task [] = []
finish_validation_rows task (t ∷ tasks) =
    (if is_validation_of task t then record t { status = finished } else t)
    ∷ finish_validation_rows task tasks

-- All validation tasks of the file, whosever they are; no load is updated.
abbrev pub finish_validation_task : TaskRow → Books → Books
finish_validation_task task books = record books { tasks = finish_validation_rows task books.tasks }

-- What finish_task meets: no agreement to act on; an agreement score that is reached, and a jobs service that
-- can be told; or one that cannot, which ends the request behind the commit of finish_validation_task. A failure
-- without an agreement is rolled back, and changes nothing.
pub data Agreement : Type 0 where
  unreached told not_told : Agreement

abbrev pub agree : Agreement → TaskRow → Books → Books
agree unreached task books = update_user_overall_load task.user_id books
agree told task books = update_user_overall_load task.user_id (finish_validation_task task books)
agree not_told task books = finish_validation_task task books

-- What finish_task changes in these tables for the tasks that are there.
unfoldable pub close_task : Agreement → ℕ → Books → Books
close_task agreement id books = elim (find_row id books.tasks) [
  | none ↦ books
  | some task ↦ agree agreement task (record books { tasks = finish_row id books.tasks })
]
