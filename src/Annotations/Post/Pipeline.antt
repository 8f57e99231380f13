-- ===== src/Annotations/Post/Pipeline.antt =====
-- What post_annotation_by_pipeline changes, and what it refuses.
use badgerdoc.Base.{
  ℕ, ◌≡◌, refl, Bool, true, false, not, Option, none, is_some, [], ◌∷◌, ◌++◌, if◌then◌else◌,
  filter_by, arith, number_key,
}
use badgerdoc.Actions.{Holds, returned, >>=-Holds, lift-Holds, raise_if-Holds}
use badgerdoc.Annotations.Types.{Text, Revision}
use badgerdoc.Annotations.Tables.{Services, Store, Author}
use badgerdoc.Annotations.Save.{DocForSave}
use badgerdoc.Annotations.Save.Laws.{IsConstructed, IsFailed, failed_before, failed_after}
use badgerdoc.Annotations.Request.{DocRequest, check_null_fields}
use badgerdoc.Annotations.Post.{last_of, is_of, post_annotation_by_pipeline}
use badgerdoc.Annotations.Post.Rules.{save_and_tell-Holds}

module _ (services : Services) where
  abbrev pub pipeline_author : DocForSave services → ℕ → ℕ → Text → ℕ → Author
  pipeline_author doc job_id file_id tenant date = record {
    user_id = none;
    pipeline_id = doc.pipeline;
    job_id = job_id;
    file_id = file_id;
    tenant = tenant;
    task_id = none;
    date = date;
  }

  -- The request is a pipeline's, without a base revision, and construct_annotated_doc has saved it, not as a
  -- merge, whatever the latest revision is.
  pub record IsPiped (before : Store) (doc : DocForSave services) (job_id file_id : ℕ)
      (tenant : Text) (date : ℕ) (r : Revision) (after : Store) : Type 0 where
    pub pipeline : is_some doc.pipeline ≡ true
    pub base : is_some doc.base_revision ≡ false
    pub latest_doc : Option Revision
    pub latest : latest_doc ≡ last_of (filter_by (is_of job_id file_id tenant) before.docs)
    pub is_new : Bool
    pub left : Store
    pub constructed_doc :
        IsConstructed services
          (pipeline_author doc job_id file_id tenant date)
          doc
          latest_doc
          true
          before
          left
          (r, is_new)
    pub after_it : after ≡ record left {
      messages = (if is_new then (job_id, file_id) ∷ left.messages else left.messages);
    }

  -- What is left of a request that fails: nothing, or the new revision without a user.
  pub data IsDropped (before : Store) (doc : DocForSave services) (after : Store) : Type 0 where
    dropped : after.docs ≡ before.docs → after.tasks ≡ before.tasks → IsDropped before doc after
    half_piped :
        (r : Revision)
        → after.docs ≡ before.docs ++ r ∷ []
        → after.tasks ≡ before.tasks
        → r.user ≡ none
        → r.pipeline ≡ doc.pipeline
        → IsDropped before doc after

  failed-IsDropped :
      (s : Store) (doc : DocForSave services) (job_id file_id : ℕ) (tenant : Text) (date : ℕ)
      → (latest_doc : Option Revision) (left : Store)
      → IsFailed services
          (pipeline_author doc job_id file_id tenant date)
          doc
          latest_doc
          true
          s
          left
      → IsDropped s doc left
  failed-IsDropped s doc job_id file_id tenant date latest_doc left (failed_before h) =
      dropped h.docs h.tasks
  failed-IsDropped s doc job_id file_id tenant date latest_doc left (failed_after {r = r} n h) =
      half_piped r h.docs h.tasks n.user n.pipeline

  -- A request that succeeds has a pipeline and no base revision, construct_annotated_doc has saved it as the
  -- latest one, and a message is sent for a new revision; one that fails leaves the tasks as they were,
  -- and the revisions, or one more that is the pipeline's and no user's.
  pub post_annotation_by_pipeline-IsPiped :
      (request : DocRequest services) (job_id file_id : ℕ) (tenant : Text) (date : ℕ) (s : Store)
      → Holds
          (IsPiped s (check_null_fields services request) job_id file_id tenant date)
          (IsDropped s (check_null_fields services request))
          (post_annotation_by_pipeline services request job_id file_id tenant date s)
  unfolding post_annotation_by_pipeline
  post_annotation_by_pipeline-IsPiped request job_id file_id tenant date s =
      let doc = check_null_fields services request in
      let latest_doc = last_of (filter_by (is_of job_id file_id tenant) s.docs) in
      >>=-Holds _ _ _ (
        raise_if-Holds (not (is_some doc.pipeline)) _ s
          (λ piped. >>=-Holds _ _ _ (
            raise_if-Holds (is_some doc.base_revision) _ s
              (λ baseless. >>=-Holds _ _ _ (
                lift-Holds _ s
                  (λ file there. >>=-Holds _ _ _ (
                    returned (
                      save_and_tell-Holds services (pipeline_author doc job_id file_id tenant date)
                        doc latest_doc true s
                        (λ r is_new left c. record {
                          pipeline = ground (arith, piped);
                          base = baseless;
                          latest_doc = latest_doc;
                          latest = refl;
                          is_new = is_new;
                          left = left;
                          constructed_doc = c;
                          after_it = refl;
                        })
                        (failed-IsDropped s doc job_id file_id tenant date latest_doc))))
                  (dropped refl refl)))
              (dropped refl refl)))
          (dropped refl refl))
