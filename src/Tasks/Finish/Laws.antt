-- ===== src/Tasks/Finish/Laws.antt =====
-- When a validation task may be finished, and which pages it has failed and edited.
use badgerdoc.Base.{
  ℕ, ◌≡◌, refl, ◌∙◌, ap, Bool, Bool-cases, inl, inr, true, false, not, ◌&&◌, Option, none, some,
  is_some, List, [], ◌∷◌, if◌then◌else◌, contains, contains-equal, filter_by, has_key, number_key,
  same_option, ◌==◌, ◌||◌, Call, ok, raises, ◌>>=◌, http_exception, arith,
}
use badgerdoc.Annotations.Types.{Text, same_text, Revision}
use badgerdoc.Annotations.Accumulate.{PageStatus, PagesInfo, only_pages}
use badgerdoc.Annotations.Accumulate.Status.{last_status, is_status, status_in}
use badgerdoc.Annotations.Accumulate.Laws.{
  contains-filter_by, IsClassified, accumulate_pages_info-IsClassified,
}
use badgerdoc.Annotations.Tables.{TaskRow}
use badgerdoc.Annotations.Save.{extra}
use badgerdoc.Annotations.Request.{is_empty}
use badgerdoc.Annotations.Post.{is_of}
use badgerdoc.Tasks.Finish.{
  get_task_revisions, keep_task_pages, kept_revisions, has_pages, validate_user_actions,
  is_in_progress, Judged, check_finish,
}

abbrev pub same_bool : Bool → Bool → Bool
same_bool true b = b
same_bool false b = not b

-- There is an annotator for failed pages exactly if there are some, a validator for edited pages exactly
-- if there are some, and every page is processed.
abbrev pub is_settled :
    (failed annotated not_processed : List ℕ) (annotation_user validation_user : Bool) → Bool
is_settled failed annotated not_processed annotation_user validation_user =
    same_bool annotation_user (not (is_empty failed))
    && same_bool validation_user (not (is_empty annotated))
    && is_empty not_processed

validate_user_actions_lem :
    (failed annotated not_processed : List ℕ) (annotation_user validation_user : Bool)
    → validate_user_actions true failed annotated not_processed annotation_user validation_user ≡ (
        if is_settled failed annotated not_processed annotation_user validation_user
        then ok tt
        else raises (http_exception 400))
unfolding validate_user_actions
validate_user_actions_lem [] [] [] au vu = ground arith
validate_user_actions_lem [] [] (n ∷ ns) au vu = ground arith
validate_user_actions_lem [] (a ∷ rest) [] au vu = ground arith
validate_user_actions_lem [] (a ∷ rest) (n ∷ ns) au vu = ground arith
validate_user_actions_lem (f ∷ fs) [] [] au vu = ground arith
validate_user_actions_lem (f ∷ fs) [] (n ∷ ns) au vu = ground arith
validate_user_actions_lem (f ∷ fs) (a ∷ rest) [] au vu = ground arith
validate_user_actions_lem (f ∷ fs) (a ∷ rest) (n ∷ ns) au vu = ground arith

-- A revision of the task: it was made for the task, for its file in its job, by its tenant.
abbrev pub is_made_for : TaskRow → Text → Revision → Bool
is_made_for task tenant r = elim r.task_id [
  | none ↦ false
  | some id ↦
      if id == task.id
      then (if r.job_id == task.job_id
          then (if r.file_id == task.file_id then same_text r.tenant tenant else false)
          else false)
      else false
]

-- What the last revision of the task that mentions the page says of it, for a page of the task.
abbrev pub judgement : TaskRow → Text → ℕ → List Revision → Option PageStatus
judgement task tenant page [] = none
judgement task tenant page (r ∷ rs) = elim (judgement task tenant page rs) [
  | some s ↦ some s
  | none ↦
      if is_made_for task tenant r
      then (if contains page task.pages then status_in page r else none)
      else none
]

has_key-only_pages :
    (page : ℕ) (pages : List ℕ) (d : List (ℕ × Text))
    → has_key page (only_pages pages d) ≡ contains page pages && has_key page d
has_key-only_pages page pages [] = ground arith
has_key-only_pages page pages ((k, v) ∷ d) =
    ground (arith, has_key-only_pages page pages d, contains-equal k page pages)

status_in-keep_task_pages :
    (page : ℕ) (pages : List ℕ) (r : Revision)
    → status_in page (keep_task_pages pages r)
      ≡ (if contains page pages then status_in page r else none)
status_in-keep_task_pages page pages r = ground (
  arith,
  contains-filter_by page (λ p. contains p pages) r.failed_validation_pages,
  contains-filter_by page (λ p. contains p pages) r.validated,
  has_key-only_pages page pages r.pages,
)

status_in-dropped :
    (page : ℕ) (d : List (ℕ × Text)) (failed validated : List ℕ)
    → (not (is_empty d) || not (is_empty failed) || not (is_empty validated)) ≡ false
    → (if contains page failed
        then some PageStatus.failed
        else if contains page validated
        then some PageStatus.validated
        else if has_key page d
        then some PageStatus.annotated
        else none)
      ≡ none
status_in-dropped page [] [] [] h = refl
status_in-dropped page [] [] (v ∷ vs) h = ground (arith, h)
status_in-dropped page [] (f ∷ fs) vs h = ground (arith, h)
status_in-dropped page (k ∷ ks) fs vs h = ground (arith, h)

is_made_for-is_of :
    (task : TaskRow) (tenant : Text) (r : Revision)
    → same_option r.task_id (some task.id) && is_of task.job_id task.file_id tenant r
      ≡ is_made_for task tenant r
is_made_for-is_of task tenant r =
    elim r.task_id
      as (λ o. same_option o (some task.id) && is_of task.job_id task.file_id tenant r ≡ (elim o [
        | none ↦ false
        | some id ↦
            if id == task.id
            then (if r.job_id == task.job_id
                then (if r.file_id == task.file_id then same_text r.tenant tenant else false)
                else false)
            else false
      ])) [ none ↦ refl | some id ↦ ground arith ]

last_status-kept_revisions :
    (page : ℕ) (pages : List ℕ) (r : Revision) (rs : List Revision)
    → last_status page (kept_revisions pages (r ∷ rs))
      ≡ elim (last_status page (kept_revisions pages rs)) [
        | some s ↦ some s
        | none ↦ if contains page pages then status_in page r else none
      ]
last_status-kept_revisions page pages r rs =
    elim (Bool-cases (has_pages (keep_task_pages pages r))) [
      | inl e ↦ ground (arith, e, status_in-keep_task_pages page pages r)
      | inr e ↦ ground (
        arith,
        e,
        status_in-keep_task_pages page pages r,
        status_in-dropped page (only_pages pages r.pages)
            (filter_by (λ p. contains p pages) r.failed_validation_pages)
            (filter_by (λ p. contains p pages) r.validated) e,
      )
    ]

last_status-get_task_revisions :
    (docs : List Revision) (task : TaskRow) (tenant : Text) (page : ℕ)
    → last_status page (get_task_revisions docs tenant task.job_id task.id task.file_id task.pages)
      ≡ judgement task tenant page docs
unfolding get_task_revisions
last_status-get_task_revisions [] task tenant page = refl
last_status-get_task_revisions (r ∷ rs) task tenant page = ground (
  arith,
  Bool-cases (is_made_for task tenant r),
  is_made_for-is_of task tenant r,
  last_status-kept_revisions page task.pages r (
      filter_by
        (λ r. same_option r.task_id (some task.id) && is_of task.job_id task.file_id tenant r) rs),
  last_status-get_task_revisions rs task tenant page,
)

-- Each page of the task is judged by the last revision of the task that mentions it.
pub record IsJudged (task : TaskRow) (tenant : Text) (docs : List Revision) (judged : Judged)
    (not_processed : List ℕ) : Type 0 where
  pub validated_pages :
      (page : ℕ)
      → contains page judged.validated
        ≡ is_status PageStatus.validated (judgement task tenant page docs)
  pub failed_pages :
      (page : ℕ)
      → contains page judged.failed ≡ is_status PageStatus.failed (judgement task tenant page docs)
  pub edited_pages :
      (page : ℕ)
      → contains page judged.annotated
        ≡ is_status PageStatus.annotated (judgement task tenant page docs)
  pub left_pages :
      (page : ℕ)
      → contains page not_processed
        ≡ contains page task.pages && not (is_some (judgement task tenant page docs))

failed_first :
    (s : Option PageStatus)
    → is_status PageStatus.failed s && not (is_status PageStatus.annotated s)
      ≡ is_status PageStatus.failed s
failed_first none = refl
failed_first (some PageStatus.annotated) = refl
failed_first (some PageStatus.validated) = refl
failed_first (some PageStatus.failed) = refl

edited_first :
    (s : Option PageStatus)
    → is_status PageStatus.annotated s && not (is_status PageStatus.validated s)
      ≡ is_status PageStatus.annotated s
edited_first none = refl
edited_first (some PageStatus.annotated) = refl
edited_first (some PageStatus.validated) = refl
edited_first (some PageStatus.failed) = refl

IsClassified-IsJudged :
    (docs : List Revision) (task : TaskRow) (tenant : Text) (info : PagesInfo)
    → (c : IsClassified task.pages
        (get_task_revisions docs tenant task.job_id task.id task.file_id task.pages)
        info)
    → IsJudged task tenant docs
        (record {
          validated = info.validated;
          failed = extra info.failed c.annotated_pages;
          annotated = extra c.annotated_pages info.validated;
        })
        info.not_processed
IsClassified-IsJudged docs task tenant info c =
    let status = last_status-get_task_revisions docs task tenant in
    record {
      validated_pages =
          λ page. c.validated page ∙ ap (is_status PageStatus.validated) (status page);
      failed_pages = λ page. ground (
        arith,
        contains-filter_by page (λ p. not (contains p c.annotated_pages)) info.failed,
        c.failed page,
        c.annotated page,
        status page,
        failed_first (judgement task tenant page docs),
      );
      edited_pages = λ page. ground (
        arith,
        contains-filter_by page (λ p. not (contains p info.validated)) c.annotated_pages,
        c.validated page,
        c.annotated page,
        status page,
        edited_first (judgement task tenant page docs),
      );
      left_pages = λ page.
          c.not_processed page
          ∙ ap (λ s. contains page task.pages && not (is_some s)) (status page);
    }

finish :
    (b : Bool) (c : Call (Unit {0})) (judged : Judged)
    → c ≡ (if b then ok tt else raises (http_exception 400))
    → (c >>= λ _. ok judged) ≡ (if b then ok judged else raises (http_exception 400))
finish true c judged h = rw h refl
finish false c judged h = rw h refl

-- A validation task in progress passes the checks of finish_task exactly if an annotator is given when pages
-- are failed and only then, a validator when pages are edited and only then, and every page of the task is
-- processed; otherwise the answer is 400. Failed, edited and validated are the pages of the task for which the
-- last revision made for this task, its file, its job and its tenant that mentions the page says so.
pub check_finish-IsJudged :
    (docs : List Revision) (task : TaskRow) (tenant : Text) (annotation_user validation_user : Bool)
    → is_in_progress task.status ≡ true
    → task.is_validation ≡ true
    → (judged : Judged) × (not_processed : List ℕ) × (check_finish docs task tenant annotation_user
          validation_user
        ≡ (if is_settled judged.failed judged.annotated not_processed annotation_user
              validation_user
            then ok judged
            else raises (http_exception 400)))
      × IsJudged task tenant docs judged not_processed
unfolding check_finish
check_finish-IsJudged docs task tenant au vu started validating =
    let revisions = get_task_revisions docs tenant task.job_id task.id task.file_id task.pages in
    let (info, returned, c) = accumulate_pages_info-IsClassified task.pages revisions in
    (
      record {
        validated = info.validated;
        failed = extra info.failed c.annotated_pages;
        annotated = extra c.annotated_pages info.validated;
      },
      info.not_processed,
      rw started (
          rw validating
            (rw returned (rw c.same_pages (finish _ _ _ (validate_user_actions_lem _ _ _ au vu))))),
      IsClassified-IsJudged docs task tenant info c,
    )
