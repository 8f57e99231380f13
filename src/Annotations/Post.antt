-- ===== src/Annotations/Post.antt =====
-- annotation/annotation/annotations/resources.py: the handlers post_annotation_by_user and
-- post_annotation_by_pipeline, with the request's schema and update_task_status of
-- annotation/annotation/tasks/services.py.
pub mod Rules
pub mod Request
pub mod Laws
pub mod Pipeline
use badgerdoc.Base.{
  ℕ, Bool, true, false, not, ◌&&◌, ◌||◌, Option, none, some, is_some, List, [], ◌∷◌, if◌then◌else◌,
  ◌==◌, leb, contains, filter_by, any_by, number_key, lookup, has_key, same_option, Call, ok,
  raises, value_error, field_constraint_error, http_exception,
}
use badgerdoc.Actions.{Action, return, raise, raise_if, lift, get, modify, ◌>>=◌, ◌>>◌}
use badgerdoc.Distribution.Types.{TaskStatus, pending, ready, in_progress, finished}
use badgerdoc.Distribution.Run.{
  ValidationType, cross, hierarchical, validation_only, extensive_coverage,
}
use badgerdoc.Annotations.Request.{
  disjoint, is_empty, or_empty, DocRequest, page_nums, one_is_filled, check_not_intersecting_pages,
  pages_for_save_check, is_accepted, check_null_fields,
}
use badgerdoc.Annotations.Types.{Text, same_text, Revision}
use badgerdoc.Annotations.Tables.{RevisionLink, Services, TaskRow, JobRow, Store, Author}
use badgerdoc.Annotations.Save.{extra, Page, DocForSave, construct_annotated_doc}

abbrev pub same_optional_text : Option Text → Text → Bool
same_optional_text none t = false
same_optional_text (some s) t = same_text s t

-- check_task_pages raises if a page of the request is not of the task.
abbrev pub in_task : List ℕ → List ℕ → List ℕ → List ℕ → Bool
in_task pages validated failed task_pages =
    is_empty (extra validated task_pages)
    && is_empty (extra failed task_pages)
    && is_empty (extra pages task_pages)

abbrev pub same_validation_type : ValidationType → ValidationType → Bool
same_validation_type cross cross = true
same_validation_type hierarchical hierarchical = true
same_validation_type validation_only validation_only = true
same_validation_type extensive_coverage extensive_coverage = true
same_validation_type a b = false

abbrev pub last_of : {A : Type 0} → List A → Option A
last_of [] = none
last_of (x ∷ []) = some x
last_of (_ ∷ y ∷ xs) = last_of (y ∷ xs)

abbrev pub first_of : {A : Type 0} → List A → Option A
first_of [] = none
first_of (x ∷ xs) = some x

-- `query.first()` with the exception for none.
abbrev pub found_or : {A S : Type 0} → ℕ → Option A → Action S A
found_or status_code none = raise (http_exception status_code)
found_or status_code (some a) = return a

-- `except ValueError`
abbrev pub catch_value_error : {A : Type 0} → ℕ → Call A → Call A
catch_value_error status_code (raises value_error) = raises (http_exception status_code)
catch_value_error status_code call = call

abbrev pub on_value_error : {A S : Type 0} → ℕ → Action S A → Action S A
on_value_error status_code action s =
    let (call, left) = action s in (catch_value_error status_code call, left)

-- A row of the job's table with this tenant.
abbrev pub job_has_tenant : Text → ℕ → List JobRow → Bool
job_has_tenant tenant job_id = any_by (λ job. job.job_id == job_id && same_text job.tenant tenant)

abbrev pub find_task : ℕ → Text → Store → Option TaskRow
find_task task_id tenant store = first_of (
    filter_by (λ task. task.id == task_id && job_has_tenant tenant task.job_id store.jobs)
      (store.tasks))

abbrev pub find_job : ℕ → Store → Option JobRow
find_job job_id store = first_of (filter_by (λ job. job.job_id == job_id) store.jobs)

-- The revisions of a file in a job of a tenant.
abbrev pub is_of : ℕ → ℕ → Text → Revision → Bool
is_of job_id file_id tenant r =
    r.job_id == job_id && r.file_id == file_id && same_text r.tenant tenant

abbrev pub has_revision : Option Text → TaskRow → Text → List Revision → Bool
has_revision base task tenant =
    any_by (λ r. same_optional_text base r.revision && is_of task.job_id task.file_id tenant r)

abbrev pub set_status : ℕ → TaskStatus → List TaskRow → List TaskRow
set_status task_id status [] = []
set_status task_id status (task ∷ tasks) =
    (if task.id == task_id then record task { status = status } else task)
    ∷ set_status task_id status tasks

abbrev pub status_step : ℕ → TaskStatus → Action Store (Unit {0})
status_step task_id ready =
    modify (λ store. record store { tasks = set_status task_id in_progress store.tasks })
status_step task_id in_progress = return tt
status_step task_id pending = raise field_constraint_error
status_step task_id finished = raise field_constraint_error

abbrev pub update_task_status : TaskRow → Action Store (Unit {0})
update_task_status task = status_step task.id task.status

-- is_latest.
abbrev pub is_base : Option Revision → Option Text → Bool
is_base none base = true
is_base (some latest_doc) base = same_optional_text base latest_doc.revision

-- A page of the request stands in the latest revision.
abbrev pub overlaps : Option Revision → List ℕ → Bool
overlaps none pages = false
overlaps (some latest_doc) pages = any_by (λ page. has_key page latest_doc.pages) pages

-- `latest_doc != new_doc` compares the objects.
abbrev pub check_if_kafka_message_is_needed : (is_new : Bool) → ℕ → ℕ → Action Store (Unit {0})
check_if_kafka_message_is_needed true job_id file_id =
    modify (λ store. record store { messages = (job_id, file_id) ∷ store.messages })
check_if_kafka_message_is_needed false job_id file_id = return tt

module _ (services : Services) where
  open services use {get_file_path_and_bucket, in_}

  -- With extensive coverage the filter on the users is added.
  abbrev pub is_visible : ValidationType → List (Option ℕ) → Revision → Bool
  is_visible validation_type users r =
      if same_validation_type validation_type extensive_coverage then in_ users r.user else true

  -- The revision with the greatest date.
  abbrev pub find_latest : JobRow → TaskRow → Text → List Revision → Option Revision
  find_latest job task tenant docs = last_of (
      filter_by
        (λ r.
          is_of task.job_id task.file_id tenant r
          && is_visible job.validation_type (some task.user_id ∷ none ∷ []) r)
        (docs))

  -- The refusals before anything is changed.
  abbrev pub check_request : DocForSave services → ℕ → Text → Action Store TaskRow
  check_request doc task_id tenant = do
    raise_if (not (is_some doc.user)) (http_exception 400)
    store ← get
    task ← found_or 404 (find_task task_id tenant store)
    raise_if (not (same_option (some task.user_id) doc.user)) (http_exception 400)
    raise_if
        (not task.is_validation
          && not (is_empty doc.validated && is_empty doc.failed_validation_pages))
        (http_exception 400)
    raise_if
        (not (
          in_task (page_nums services doc.pages) doc.validated doc.failed_validation_pages
            task.pages))
        (http_exception 400)
    raise_if
        (is_some doc.base_revision && not (has_revision doc.base_revision task tenant store.docs))
        (http_exception 404)
    return task

  -- From the call of construct_annotated_doc on.
  abbrev pub save_and_tell :
      Author → DocForSave services → Option Revision → (is_latest : Bool) → Action Store Revision
  save_and_tell author doc latest_doc is_latest = do
    (new_doc, is_new) ←
        on_value_error 404 (construct_annotated_doc services author doc latest_doc is_latest)
    check_if_kafka_message_is_needed is_new author.job_id author.file_id
    return new_doc

  -- The date is the one that the database gives to a new revision.
  unfoldable pub post_annotation_by_user :
      DocRequest services → (task_id : ℕ) → (tenant : Text) → (date : ℕ) → Action Store Revision
  post_annotation_by_user request task_id tenant date = do
    let doc = check_null_fields services request
    task ← check_request doc task_id tenant
    update_task_status task
    _ ← lift (get_file_path_and_bucket task.file_id tenant)
    store ← get
    job ← found_or 404 (find_job task.job_id store)
    let latest_doc = find_latest job task tenant store.docs
    let is_latest = is_base latest_doc doc.base_revision
    raise_if (not is_latest && overlaps latest_doc (page_nums services doc.pages))
        (http_exception 400)
    save_and_tell
        (record {
          user_id = doc.user;
          pipeline_id = none;
          job_id = task.job_id;
          file_id = task.file_id;
          tenant = tenant;
          task_id = some task_id;
          date = date;
        })
        doc latest_doc is_latest

  unfoldable pub post_annotation_by_pipeline :
      DocRequest services
      → (job_id file_id : ℕ) → (tenant : Text) → (date : ℕ) → Action Store Revision
  post_annotation_by_pipeline request job_id file_id tenant date = do
    let doc = check_null_fields services request
    raise_if (not (is_some doc.pipeline)) (http_exception 400)
    raise_if (is_some doc.base_revision) (http_exception 400)
    _ ← lift (get_file_path_and_bucket file_id tenant)
    store ← get
    let latest_doc = last_of (filter_by (is_of job_id file_id tenant) store.docs)
    save_and_tell
        (record {
          user_id = none;
          pipeline_id = doc.pipeline;
          job_id = job_id;
          file_id = file_id;
          tenant = tenant;
          task_id = none;
          date = date;
        })
        doc latest_doc true
