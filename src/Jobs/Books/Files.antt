-- ===== src/Jobs/Books/Files.antt =====
-- The distributed pages of a file are the pages of its tasks.
use badgerdoc.Base.{
  ℕ, suc, ◌≡◌, refl, ◌∙◌, ap, sym, Bool, true, false, not, ◌&&◌, ◌||◌, List, [], ◌∷◌, ◌++◌,
  if◌then◌else◌, ◌==◌, ==_iff, contains, contains-append, filter_by, any_by, All, Bool-cases, inl,
  inr, arith,
}
use badgerdoc.Distribution.Types.{Task}
use badgerdoc.Distribution.Extensive.Sets.{contains-sorted_set}
use badgerdoc.Annotations.Tables.{TaskRow}
use badgerdoc.Jobs.Books.{
  FileRow, new_rows, pages_given, is_given, extend_file, update_files, task_pages, recalculate,
  finish_row,
}

-- A page is distributed for a kind of task exactly if a task of the file has it.
pub record IsRecorded (tasks : List TaskRow) (file : FileRow) : Type 0 where
  pub annotating :
      (page : ℕ)
      → contains page file.distributed_annotating_pages
        ≡ contains page (task_pages false file.job_id file.file_id tasks)
  pub validating :
      (page : ℕ)
      → contains page file.distributed_validating_pages
        ≡ contains page (task_pages true file.job_id file.file_id tasks)

task_pages-append :
    (v : Bool) (job file page : ℕ) (xs ys : List TaskRow)
    → contains page (task_pages v job file (xs ++ ys))
      ≡ contains page (task_pages v job file xs) || contains page (task_pages v job file ys)
task_pages-append v job file page [] ys = ground arith
task_pages-append v job file page (x ∷ xs) ys = ground (
  arith,
  task_pages-append v job file page xs ys,
  contains-append page x.pages (task_pages v job file (xs ++ ys)),
  contains-append page x.pages (task_pages v job file xs),
)

-- All tasks are of the job that create_tasks is called for.
abbrev pub AreOf : ℕ → List Task → Type 0
AreOf job_id = All (λ task. task.job_id ≡ job_id)

new_rows-pages :
    (v : Bool) (job file page id : ℕ) (tasks : List Task)
    → AreOf job tasks
    → contains page (task_pages v job file (new_rows id tasks))
      ≡ contains page (pages_given v file tasks)
new_rows-pages v job file page id [] h = refl
new_rows-pages v job file page id (task ∷ tasks) h = ground (
  arith,
  (==_iff task.job_id job).1 h.0,
  new_rows-pages v job file page (suc id) tasks h.1,
  contains-append page task.pages (task_pages v job file (new_rows (suc id) tasks)),
  contains-append page task.pages (pages_given v file tasks),
)

new_rows-elsewhere :
    (v : Bool) (job other file page id : ℕ) (tasks : List Task)
    → AreOf job tasks
    → (other == job) ≡ false
    → contains page (task_pages v other file (new_rows id tasks)) ≡ false
new_rows-elsewhere v job other file page id [] h e = refl
new_rows-elsewhere v job other file page id (task ∷ tasks) h e =
    ground (arith, h.0, e, new_rows-elsewhere v job other file page (suc id) tasks h.1 e)

pages_given-none :
    (v : Bool) (file page : ℕ) (tasks : List Task)
    → any_by (λ task. task.file_id == file) tasks ≡ false
    → contains page (pages_given v file tasks) ≡ false
pages_given-none v file page [] e = refl
pages_given-none v file page (task ∷ tasks) e =
    ground (arith, e, pages_given-none v file page tasks)

held-add_tasks :
    (v : Bool) (job id : ℕ) (new : List Task) (tasks : List TaskRow) (f : FileRow) (page : ℕ)
    → AreOf job new
    → contains page (task_pages v f.job_id f.file_id (tasks ++ new_rows id new))
      ≡ contains page (task_pages v f.job_id f.file_id tasks)
        || (is_given new job f && contains page (pages_given v f.file_id new))
held-add_tasks v job id new tasks f page h =
    task_pages-append v f.job_id f.file_id page tasks (new_rows id new)
    ∙ ap (λ b. contains page (task_pages v f.job_id f.file_id tasks) || b)
        (added (f.job_id == job) refl)
  where
    added :
        (b : Bool)
        → (f.job_id == job) ≡ b
        → contains page (task_pages v f.job_id f.file_id (new_rows id new))
          ≡ is_given new job f && contains page (pages_given v f.file_id new)
    added true e = rw e (
        ap (λ j. contains page (task_pages v j f.file_id (new_rows id new)))
          ((==_iff f.job_id job).0 e)
        ∙ new_rows-pages v job f.file_id page id new h
        ∙ ground (arith, pages_given-none v f.file_id page new))
    added false e = rw e (new_rows-elsewhere v job f.job_id f.file_id page id new h e)

extend_file-IsRecorded :
    (job id : ℕ) (new : List Task) (tasks : List TaskRow) (f : FileRow)
    → AreOf job new
    → IsRecorded tasks f
    → IsRecorded (tasks ++ new_rows id new) (if is_given new job f then extend_file new f else f)
extend_file-IsRecorded job id new tasks f h r = elim (Bool-cases (is_given new job f)) [
  | inl e ↦ rw e (record {
    annotating = λ page. ground (
      arith,
      e,
      contains-sorted_set page (pages_given false f.file_id new ++ f.distributed_annotating_pages),
      contains-append page (pages_given false f.file_id new) f.distributed_annotating_pages,
      r.annotating page,
      held-add_tasks false job id new tasks f page h,
    );
    validating = λ page. ground (
      arith,
      e,
      contains-sorted_set page (pages_given true f.file_id new ++ f.distributed_validating_pages),
      contains-append page (pages_given true f.file_id new) f.distributed_validating_pages,
      r.validating page,
      held-add_tasks true job id new tasks f page h,
    );
  })
  | inr e ↦ rw e (record {
    annotating = λ page.
        ground (arith, e, r.annotating page, held-add_tasks false job id new tasks f page h);
    validating =
        λ page. ground (arith, e, r.validating page, held-add_tasks true job id new tasks f page h);
  })
]

pub update_files-IsRecorded :
    (job id : ℕ) (new : List Task) (tasks : List TaskRow) (files : List FileRow)
    → AreOf job new
    → All (IsRecorded tasks) files
    → All (IsRecorded (tasks ++ new_rows id new)) (update_files new job files)
update_files-IsRecorded job id new tasks [] h r = tt
update_files-IsRecorded job id new tasks (f ∷ files) h r = (
  extend_file-IsRecorded job id new tasks f h r.0,
  update_files-IsRecorded job id new tasks files h r.1,
)

-- The rows with this id are of the same file and user as the task.
abbrev pub IsRowOf : TaskRow → TaskRow → Type 0
IsRowOf task t =
    (t.id == task.id) ≡ true
    → (t.job_id ≡ task.job_id) × (t.file_id ≡ task.file_id) × (t.user_id ≡ task.user_id)

abbrev pub without : TaskRow → List TaskRow → List TaskRow
without task = filter_by (λ t. not (t.id == task.id))

-- Another file's tasks stay.
without-pages :
    (v : Bool) (task : TaskRow) (tasks : List TaskRow) (f : FileRow) (page : ℕ)
    → All (IsRowOf task) tasks
    → (f.job_id == task.job_id && f.file_id == task.file_id) ≡ false
    → contains page (task_pages v f.job_id f.file_id (without task tasks))
      ≡ contains page (task_pages v f.job_id f.file_id tasks)
without-pages v task [] f page h e = refl
without-pages v task (t ∷ tasks) f page h e = elim (Bool-cases (t.id == task.id)) [
  | inl s ↦ rw s (ground (arith, without-pages v task tasks f page h.1 e, h.0 s, e))
  | inr s ↦ rw s (
      ground (
        arith,
        without-pages v task tasks f page h.1 e,
        contains-append page t.pages (task_pages v f.job_id f.file_id (without task tasks)),
        contains-append page t.pages (task_pages v f.job_id f.file_id tasks),
      ))
]

pub recalculate-IsRecorded :
    (task : TaskRow) (tasks : List TaskRow) (files : List FileRow)
    → All (IsRowOf task) tasks
    → All (IsRecorded tasks) files
    → All (IsRecorded (without task tasks)) (recalculate task (without task tasks) files)
recalculate-IsRecorded task tasks [] h r = tt
recalculate-IsRecorded task tasks (f ∷ files) h r = (
  elim (Bool-cases (f.job_id == task.job_id && f.file_id == task.file_id)) [
    | inl e ↦ rw e (record {
      annotating = λ page. contains-sorted_set page _;
      validating = λ page. contains-sorted_set page _;
    })
    | inr e ↦ rw e (record {
      annotating = λ page. r.0.annotating page ∙ sym (without-pages false task tasks f page h e);
      validating = λ page. r.0.validating page ∙ sym (without-pages true task tasks f page h e);
    })
  ],
  recalculate-IsRecorded task tasks files h r.1,
)

-- A finished task keeps its pages.
task_pages-finish_row :
    (v : Bool) (id job file : ℕ) (tasks : List TaskRow)
    → task_pages v job file (finish_row id tasks) ≡ task_pages v job file tasks
task_pages-finish_row v id job file [] = refl
task_pages-finish_row v id job file (t ∷ tasks) = elim (Bool-cases (t.id == id)) [
  | inl e ↦ rw (e, task_pages-finish_row v id job file tasks) refl
  | inr e ↦ rw (e, task_pages-finish_row v id job file tasks) refl
]

pub finish_row-IsRecorded :
    (id : ℕ) (tasks : List TaskRow) (files : List FileRow)
    → All (IsRecorded tasks) files
    → All (IsRecorded (finish_row id tasks)) files
finish_row-IsRecorded id tasks [] r = tt
finish_row-IsRecorded id tasks (f ∷ files) r = (
  record {
    annotating = λ page.
        r.0.annotating page
        ∙ ap (contains page) (sym (task_pages-finish_row false id f.job_id f.file_id tasks));
    validating = λ page.
        r.0.validating page
        ∙ ap (contains page) (sym (task_pages-finish_row true id f.job_id f.file_id tasks));
  },
  finish_row-IsRecorded id tasks files r.1,
)
