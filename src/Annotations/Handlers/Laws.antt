-- ===== src/Annotations/Handlers/Laws.antt =====
-- What get_annotations_up_to_given_revision answers.
use badgerdoc.Base.{
  ℕ, ◌≡◌, refl, sym, subst, ap, ◌∙◌, Bool, true, ◌&&◌, Option, none, some, List, [], ◌∷◌, ◌++◌,
  ◌==◌, if◌then◌else◌, Call, ok, ◌>>=◌, filter_by, lookup, number_key, contains, Bool-cases,
  Option-cases, inl, inr, arith,
}
use badgerdoc.Distribution.Run.{cross, hierarchical, validation_only, extensive_coverage}
use badgerdoc.Annotations.Types.{Text, same_text, Revision}
use badgerdoc.Annotations.Accumulate.{PageStatus, PagesInfo, hashes}
use badgerdoc.Annotations.Accumulate.Status.{until, last_status, is_status}
use badgerdoc.Annotations.Accumulate.Hashes.{is_chosen, last_hash}
use badgerdoc.Annotations.Accumulate.Required.{asked}
use badgerdoc.Annotations.Accumulate.Laws.{accumulate_pages_info-IsHashed}
use badgerdoc.Annotations.Tables.{Services, JobRow, Store}
use badgerdoc.Annotations.Save.{convert_bucket_name_if_s3prefix, hashes_in}
use badgerdoc.Annotations.Post.{find_job, is_of, is_visible}
use badgerdoc.Annotations.Read.{
  connect_s3, load_annotated_pages, load_validated_pages, links_of, or_none, ParticularRevision,
  construct_particular_rev_response,
}
use badgerdoc.Annotations.Handlers.{
  seen_revisions, job_or_404, read_revisions, respond, get_annotations_up_to_given_revision,
}

module _ (services : Services) where
  -- With extensive coverage a reader sees what SQL's IN finds for the given user and NULL.
  abbrev pub is_shown : JobRow → Option ℕ → Revision → Bool
  is_shown job user_id r = elim job.validation_type [
    | cross ↦ true
    | hierarchical ↦ true
    | validation_only ↦ true
    | extensive_coverage ↦ services.in_ (user_id ∷ none ∷ []) r.user
  ]

  -- The revisions of the file in the job and of the tenant that the reader sees.
  abbrev pub shown : JobRow → ℕ → Text → Option ℕ → List Revision → List Revision
  shown job file_id tenant user_id [] = []
  shown job file_id tenant user_id (r ∷ rs) =
      let rest = shown job file_id tenant user_id rs in
      if r.job_id == job.job_id
      then (if r.file_id == file_id
          then (if same_text r.tenant tenant
              then (if is_shown job user_id r then r ∷ rest else rest)
              else rest)
          else rest)
      else rest

  is_shown_lem :
      (job : JobRow) (user_id : Option ℕ) (r : Revision)
      → is_visible services job.validation_type (user_id ∷ none ∷ []) r ≡ is_shown job user_id r
  is_shown_lem job user_id r =
      elim job.validation_type
        as (λ t. is_visible services t (user_id ∷ none ∷ []) r ≡ (elim t [
          | cross ↦ true
          | hierarchical ↦ true
          | validation_only ↦ true
          | extensive_coverage ↦ services.in_ (user_id ∷ none ∷ []) r.user
        ])) [
          | cross ↦ refl
          | hierarchical ↦ refl
          | validation_only ↦ refl
          | extensive_coverage ↦ refl
        ]

  seen-shown :
      (job : JobRow) (file_id : ℕ) (tenant : Text) (user_id : Option ℕ) (docs : List Revision)
      → filter_by
          (λ r.
            is_of job.job_id file_id tenant r
            && is_visible services job.validation_type (user_id ∷ none ∷ []) r)
          docs
        ≡ shown job file_id tenant user_id docs
  seen-shown job file_id tenant user_id [] = refl
  seen-shown job file_id tenant user_id (r ∷ rs) = ground (
    arith,
    is_shown_lem job user_id r,
    Bool-cases (is_shown job user_id r),
    seen-shown job file_id tenant user_id rs,
  )

  -- The row of the revision with these hashes and statuses.
  abbrev pub row_with : Revision → List (ℕ × Text) → List ℕ → List ℕ → Revision
  row_with r hash_of validated failed = record r {
    pages = hash_of;
    validated = validated;
    failed_validation_pages = failed;
  }

  -- The answer: who made the revision and when, its statuses, and its pages as they are loaded.
  abbrev pub answer_for :
      Store
      → Revision
      → List (ℕ × Text)
      → List ℕ
      → List ℕ
      → Option (List Text)
      → Call (ParticularRevision services)
  answer_for store r hash_of validated failed categories =
      let bucket_name = convert_bucket_name_if_s3prefix services r.tenant in
      let row = row_with r hash_of validated failed in
      do
        _ ← connect_s3 services bucket_name
        annotated ← load_annotated_pages services store.objects bucket_name row hash_of
        ok (record {
          revision = some r.revision;
          user = r.user;
          pipeline = r.pipeline;
          date = some r.date;
          pages = annotated ++ load_validated_pages services row validated;
          validated = validated;
          failed_validation_pages = failed;
          categories = categories;
          similar_revisions = or_none (links_of row store.links);
        })

  -- The answer for the revisions that the reader sees.
  pub data IsAnswered (store : Store) (stop : Text) (numbers : List ℕ) (revisions : List Revision)
      (answer : Call (ParticularRevision services)) : Type 0 where
    not_found :
        asked (some stop) revisions ≡ none
        → answer
          ≡ ok (record {
            revision = none;
            user = none;
            pipeline = none;
            date = none;
            pages = [];
            validated = [];
            failed_validation_pages = [];
            categories = none;
            similar_revisions = none;
          })
        → IsAnswered store stop numbers revisions answer
    found :
        (r : Revision) (hash_of : List (ℕ × Text)) (validated failed : List ℕ)
        (categories : Option (List Text))
        → asked (some stop) revisions ≡ some r
        → ((page : ℕ)
            → lookup page hash_of ≡ (
                if is_chosen numbers page
                then last_hash page (until (some stop) revisions)
                else none))
        → ((page : ℕ)
            → contains page validated
              ≡ is_chosen numbers page
                && is_status PageStatus.validated (last_status page (until (some stop) revisions)))
        → ((page : ℕ)
            → contains page failed
              ≡ is_chosen numbers page
                && is_status PageStatus.failed (last_status page (until (some stop) revisions)))
        → answer ≡ answer_for store r hash_of validated failed categories
        → IsAnswered store stop numbers revisions answer

  respond-answer_for :
      (store : Store) (info : PagesInfo) (hash_of : List (ℕ × Text)) (q : Revision)
      → info.annotated ≡ hashes hash_of
      → respond services store info (some q)
        ≡ answer_for store q hash_of info.validated info.failed info.categories
  unfolding construct_particular_rev_response
  respond-answer_for store info hash_of q e =
      ap
        (λ a.
          construct_particular_rev_response services store
            (row_with q (hashes_in a) info.validated info.failed) info.categories)
        e

  read_revisions-IsAnswered :
      (store : Store) (stop : Text) (numbers : List ℕ) (rs : List Revision)
      → IsAnswered store stop numbers rs (read_revisions services store rs stop numbers)
  read_revisions-IsAnswered store stop numbers [] = not_found refl refl
  read_revisions-IsAnswered store stop numbers (r ∷ rs) =
      let (info, found_info, h) = accumulate_pages_info-IsHashed stop numbers r rs in
      let answered : read_revisions services store (r ∷ rs) stop numbers
          ≡ respond services store info (asked (some stop) (r ∷ rs)) =
        rw found_info (rw h.required refl) in
      elim (Option-cases (asked (some stop) (r ∷ rs))) [
        | inl none_ ↦ not_found none_ (answered ∙ ap (respond services store info) none_)
        | inr (q, e) ↦
            found q h.hash_of info.validated info.failed info.categories e h.hashed h.validated
              h.failed
              (answered
                ∙ ap (respond services store info) e
                ∙ respond-answer_for store info h.hash_of q h.same_hashes)
      ]

  job_or_404-found :
      (job_id : ℕ) (store : Store) (job : JobRow)
      → find_job job_id store ≡ some job
      → job_or_404 services job_id store ≡ ok job
  job_or_404-found job_id store job e = rw (e, job_or_404) refl

  -- If the job exists, get_annotations_up_to_given_revision reads those revisions of the file in the job and of the
  -- tenant that the reader sees. Without the revision that is asked for, the answer is empty. Else it has the id,
  -- the user, the pipeline and the date of this revision; its validated and failed pages are those chosen pages
  -- of which the last revision up to this one that mentions them says so; and its pages are those that are loaded
  -- for the hash that each chosen page has in the last revision up to this one that annotates it, followed
  -- by the validated ones without a hash. It fails only as the bucket and the loading do.
  pub get_annotations_up_to_given_revision-IsAnswered :
      (store : Store) (job_id file_id : ℕ) (revision : Text) (numbers : List ℕ) (tenant : Text)
      → (user_id : Option ℕ) (job : JobRow) → find_job job_id store ≡ some job
      → IsAnswered store revision numbers (shown job file_id tenant user_id store.docs) (
          get_annotations_up_to_given_revision services store job_id file_id revision numbers tenant
            user_id)
  unfolding get_annotations_up_to_given_revision
  get_annotations_up_to_given_revision-IsAnswered store job_id file_id revision numbers tenant
        user_id job e =
      let same_answer : get_annotations_up_to_given_revision services store job_id file_id revision
            numbers tenant user_id
          ≡ read_revisions services store (shown job file_id tenant user_id store.docs) revision
              numbers =
        ap
          (λ found_job. found_job >>= λ j.
            read_revisions services store (seen_revisions services store j file_id tenant user_id)
              revision numbers)
          (job_or_404-found job_id store job e)
        ∙ ap (λ revisions. read_revisions services store revisions revision numbers)
            (seen-shown job file_id tenant user_id store.docs) in
      subst (IsAnswered store revision numbers (shown job file_id tenant user_id store.docs))
        (sym same_answer)
        (read_revisions-IsAnswered store revision numbers
          (shown job file_id tenant user_id store.docs))
