-- ===== src/Tasks/Finish.antt =====
-- annotation/annotation/tasks/resources.py and services.py: the checks of finish_task, which a task has to
-- pass before anything is changed.
pub mod Laws
use badgerdoc.Base.{
  ℕ, Bool, true, false, not, ◌&&◌, ◌||◌, Option, none, some, List, [], ◌∷◌, if◌then◌else◌, ◌==◌,
  contains, filter_by, number_key, Call, ok, raises, ◌>>=◌, http_exception, attribute_error,
  same_option,
}
use badgerdoc.Distribution.Types.{TaskStatus, pending, ready, in_progress, finished}
use badgerdoc.Annotations.Types.{Text, same_text, Revision}
use badgerdoc.Annotations.Accumulate.{
  AnnotatedPages, hashes, numbers, PagesInfo, only_pages, accumulate_pages_info,
}
use badgerdoc.Annotations.Tables.{TaskRow}
use badgerdoc.Annotations.Save.{extra}
use badgerdoc.Annotations.Request.{is_empty}
use badgerdoc.Annotations.Post.{is_of}

-- A revision cut down to the pages of the task.
abbrev pub keep_task_pages : List ℕ → Revision → Revision
keep_task_pages task_pages revision = record revision {
  pages = only_pages task_pages revision.pages;
  failed_validation_pages =
      filter_by (λ page. contains page task_pages) revision.failed_validation_pages;
  validated = filter_by (λ page. contains page task_pages) revision.validated;
}

-- `any((revision.pages, revision.failed_validation_pages, revision.validated))`
abbrev pub has_pages : Revision → Bool
has_pages revision =
    not (is_empty revision.pages)
    || not (is_empty revision.failed_validation_pages)
    || not (is_empty revision.validated)

abbrev pub kept_revisions : List ℕ → List Revision → List Revision
kept_revisions task_pages [] = []
kept_revisions task_pages (revision ∷ revisions) =
    let rest = kept_revisions task_pages revisions in
    let kept = keep_task_pages task_pages revision in if has_pages kept then kept ∷ rest else rest

unfoldable pub get_task_revisions :
    (docs : List Revision)
    → (tenant : Text) (job_id task_id file_id : ℕ) (task_pages : List ℕ) → List Revision
get_task_revisions docs tenant job_id task_id file_id task_pages =
    kept_revisions task_pages
      (filter_by (λ r. same_option r.task_id (some task_id) && is_of job_id file_id tenant r) docs)

-- `if test: raise HTTPException(400)`, before the rest.
abbrev pub refuse_if : {A : Type 0} → Bool → Call A → Call A
refuse_if true rest = raises (http_exception 400)
refuse_if false rest = rest

unfoldable pub validate_user_actions :
    (is_validation : Bool)
    → (failed annotated not_processed : List ℕ) (annotation_user validation_user : Bool)
    → Call (Unit {0})
validate_user_actions is_validation failed annotated not_processed annotation_user validation_user =
    refuse_if (is_validation && not (is_empty failed) && not annotation_user) (
      refuse_if (is_validation && not (is_empty annotated) && not validation_user) (
        refuse_if (is_validation && is_empty failed && annotation_user) (
          refuse_if (is_validation && is_empty annotated && validation_user)
            (refuse_if (is_validation && not (is_empty not_processed)) (ok tt)))))

abbrev pub is_in_progress : TaskStatus → Bool
is_in_progress pending = false
is_in_progress ready = false
is_in_progress in_progress = true
is_in_progress finished = false

-- Without hashes the annotated pages are a set.
abbrev pub page_set : AnnotatedPages → Call (List ℕ)
page_set (numbers pages) = ok pages
page_set (hashes d) = raises attribute_error

-- The sets that finish_task goes on with.
pub record Judged : Type 0 where
  pub validated : List ℕ
  pub failed : List ℕ
  pub annotated : List ℕ

-- finish_task from the test of the status up to validate_user_actions.
unfoldable pub check_finish :
    (docs : List Revision) (task : TaskRow) (tenant : Text) (annotation_user validation_user : Bool)
    → Call Judged
check_finish docs task tenant annotation_user validation_user =
    refuse_if (not (is_in_progress task.status)) (
      refuse_if (not task.is_validation && (annotation_user || validation_user)) (do
        info ←
            accumulate_pages_info task.pages
              (get_task_revisions docs tenant task.job_id task.id task.file_id task.pages) none []
              false true
        annotated_pages ← page_set info.annotated
        let failed = extra info.failed annotated_pages
        let annotated = extra annotated_pages info.validated
        _ ←
            validate_user_actions task.is_validation failed annotated info.not_processed
              annotation_user validation_user
        ok (record { validated = info.validated; failed = failed; annotated = annotated })))
