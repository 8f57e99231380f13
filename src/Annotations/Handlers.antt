-- ===== src/Annotations/Handlers.antt =====
-- annotation/annotation/annotations/resources.py: the handlers that read annotations.
pub mod Laws
use badgerdoc.Base.{
  ℕ, Bool, true, false, not, ◌&&◌, Option, none, some, List, [], ◌∷◌, ◌++◌, if◌then◌else◌, ◌==◌,
  filter_by, number_key, lookup, has_key, Call, ok, raises, ◌>>=◌, service_error, http_exception,
}
use badgerdoc.Distribution.Run.{extensive_coverage}
use badgerdoc.Annotations.Types.{Text, same_text, latest, Revision}
use badgerdoc.Annotations.Accumulate.{PagesInfo, accumulate_pages_info}
use badgerdoc.Annotations.Pages.{PageEntry, find_latest_revision_pages, find_all_revisions_pages}
use badgerdoc.Annotations.Tables.{RevisionLink, DocumentLink, Services, ObjectPath, JobRow, Store}
use badgerdoc.Annotations.Save.{hashes_in, convert_bucket_name_if_s3prefix}
use badgerdoc.Annotations.Post.{last_of, first_of, find_job, is_of, is_visible}
use badgerdoc.Annotations.Read.{
  LoadedPage, UserPage, load_revisions_pages, ParticularRevision, no_revision,
  construct_particular_rev_response,
}

module _ (services : Services) where
  -- The revisions that a reader sees; with extensive coverage those of one user.
  abbrev pub seen_revisions : Store → JobRow → ℕ → Text → Option ℕ → List Revision
  seen_revisions store job file_id tenant user_id =
      filter_by
        (λ r.
          is_of job.job_id file_id tenant r
          && is_visible services job.validation_type (user_id ∷ none ∷ []) r)
        store.docs

  abbrev pub job_or_404 : ℕ → Store → Call JobRow
  job_or_404 job_id store = elim (find_job job_id store) [
    | none ↦ raises (http_exception 404)
    | some job ↦ ok job
  ]

  -- What is answered for the revision that accumulate_pages_info found; its pages and statuses are
  -- written over those of the row.
  abbrev pub respond : Store → PagesInfo → Option Revision → Call (ParticularRevision services)
  respond store info none = ok (no_revision services)
  respond store info (some required_revision) =
      construct_particular_rev_response services store
        (record required_revision {
          pages = hashes_in info.annotated;
          validated = info.validated;
          failed_validation_pages = info.failed;
        })
        info.categories

  abbrev pub read_revisions :
      Store → List Revision → Text → List ℕ → Call (ParticularRevision services)
  read_revisions store [] revision page_numbers = ok (no_revision services)
  read_revisions store (r ∷ revisions) revision page_numbers = do
    info ← accumulate_pages_info [] (r ∷ revisions) (some revision) page_numbers true false
    respond store info info.required_revision

  -- No page numbers are all of them.
  unfoldable pub get_annotations_up_to_given_revision :
      Store
      → (job_id file_id : ℕ)
      → (revision : Text) (page_numbers : List ℕ) (tenant : Text) (user_id : Option ℕ)
      → Call (ParticularRevision services)
  get_annotations_up_to_given_revision store job_id file_id revision page_numbers tenant user_id =
      do
        job ← job_or_404 job_id store
        read_revisions store (seen_revisions store job file_id tenant user_id) revision page_numbers

  -- The latest revision, or the one with this id.
  abbrev pub find_revision : Text → List Revision → Option Revision
  find_revision revision docs =
      if same_text revision latest
      then last_of docs
      else first_of (filter_by (λ r. same_text r.revision revision) docs)

  -- NoSuchRevisionsError is answered with 404.
  unfoldable pub get_annotation_for_given_revision :
      Store → (job_id file_id : ℕ) → (revision tenant : Text) → Call (ParticularRevision services)
  get_annotation_for_given_revision store job_id file_id revision tenant =
      elim (find_revision revision (filter_by (is_of job_id file_id tenant) store.docs)) [
        | none ↦ raises (http_exception 404)
        | some r ↦ construct_particular_rev_response services store r (some r.categories)
      ]

  -- `{page_number: [] for page_number in page_numbers}`
  abbrev pub no_pages : List ℕ → List (ℕ × List (UserPage services))
  no_pages [] = []
  no_pages (page_number ∷ page_numbers) = (page_number, []) ∷ no_pages page_numbers

  abbrev pub load_or_none :
      Store
      → List ℕ
      → Text
      → List (ℕ × List (Option ℕ × PageEntry))
      → Call (List (ℕ × List (UserPage services)))
  load_or_none store page_numbers tenant [] = ok (no_pages page_numbers)
  load_or_none store page_numbers tenant (page ∷ pages) =
      load_revisions_pages services store (page ∷ pages) tenant

  -- `if user_id:` adds the filter.
  abbrev pub is_by : Option ℕ → Revision → Bool
  is_by none r = true
  is_by (some user_id) r = elim r.user [ none ↦ false | some user ↦ user == user_id ]

  unfoldable pub get_latest_revision_by_user :
      Store
      → (job_id file_id : ℕ) → (page_numbers : List ℕ) (user_id : Option ℕ) (tenant : Text)
      → Call (List (ℕ × List (UserPage services)))
  get_latest_revision_by_user store job_id file_id page_numbers user_id tenant =
      let revisions =
        filter_by (λ r. is_of job_id file_id tenant r && is_by user_id r) store.docs in
      load_or_none store page_numbers tenant (find_latest_revision_pages revisions page_numbers)

  unfoldable pub get_all_revisions :
      Store
      → (job_id file_id : ℕ) → (page_numbers : List ℕ) (tenant : Text) (user_id : Option ℕ)
      → Call (List (ℕ × List (UserPage services)))
  get_all_revisions store job_id file_id page_numbers tenant user_id = do
    job ← job_or_404 job_id store
    let revisions = seen_revisions store job file_id tenant user_id
    load_or_none store page_numbers tenant (find_all_revisions_pages revisions page_numbers)
