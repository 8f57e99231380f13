-- ===== src/Annotations/Post/Laws.antt =====
-- What post_annotation_by_user changes, and what it refuses.
use badgerdoc.Base.{
  sym, ap, subst, same_option_iff, contains, ℕ, ◌≡◌, refl, Bool, true, false, not, ◌&&◌, Option,
  none, some, is_some, List, [], ◌∷◌, ◌++◌, if◌then◌else◌, arith, same_option, number_key,
}
use badgerdoc.Actions.{Holds, returned, raised, >>=-Holds, lift-Holds, raise_if-Holds, weaken-Holds}
use badgerdoc.Distribution.Types.{TaskStatus, pending, ready, in_progress, finished}
use badgerdoc.Annotations.Types.{Text, Revision}
use badgerdoc.Annotations.Tables.{Services, TaskRow, JobRow, Store, Author}
use badgerdoc.Annotations.Save.{DocForSave}
use badgerdoc.Annotations.Save.Laws.{IsConstructed, IsFailed, failed_before, failed_after}
use badgerdoc.Annotations.Request.{is_empty, page_nums, DocRequest, check_null_fields}
use badgerdoc.Annotations.Post.{
  in_task, find_task, has_revision, status_step, update_task_status, find_latest, is_base, overlaps,
  check_request, post_annotation_by_user,
}
use badgerdoc.Annotations.Post.Request.{
  Stands, IsTaskOf, IsRevisionOf, AreAmong, find_task-IsTaskOf, find_job-Stands,
  has_revision-IsRevisionOf, in_task-AreAmong, begun, set_status-begun, in_latest, matches_base,
  is_base-matches_base, overlaps-in_latest, newest, find_latest-newest,
}
use badgerdoc.Annotations.Post.Rules.{found_or-Holds, save_and_tell-Holds}

abbrev pub is_open : TaskStatus → Bool
is_open ready = true
is_open in_progress = true
is_open pending = false
is_open finished = false

-- What is saved starts a task that is ready.
abbrev pub started : TaskRow → TaskStatus → List TaskRow → List TaskRow
started task ready tasks = begun task.id tasks
started task in_progress tasks = tasks
started task pending tasks = tasks
started task finished tasks = tasks

abbrev pub begin : TaskRow → Store → Store
begin task store = record store { tasks = started task task.status store.tasks }

module _ (services : Services) where
  -- The task is the user's, the request fits its kind and its pages, and its base revision exists.
  pub record IsAllowed (store : Store) (doc : DocForSave services) (task_id : ℕ) (tenant : Text)
      (task : TaskRow) : Type 0 where
    pub found : IsTaskOf store task_id tenant task
    pub owner : doc.user ≡ some task.user_id
    pub kind :
        task.is_validation ≡ false → (doc.validated ≡ []) × (doc.failed_validation_pages ≡ [])
    pub pages : AreAmong (page_nums services doc.pages) task.pages
    pub validated : AreAmong doc.validated task.pages
    pub failed : AreAmong doc.failed_validation_pages task.pages
    pub base :
        (base_revision : Text)
        → doc.base_revision ≡ some base_revision
        → (r : Revision) × IsRevisionOf task tenant base_revision store.docs r

  no_kind :
      (is_validation : Bool) (xs ys : List ℕ)
      → (not is_validation && not (is_empty xs && is_empty ys)) ≡ false
      → is_validation ≡ false
      → (xs ≡ []) × (ys ≡ [])
  no_kind v [] [] h e = (refl, refl)
  no_kind v (x ∷ xs) ys h e = absurd (ground (arith, h, e))
  no_kind v [] (y ∷ ys) h e = absurd (ground (arith, h, e))

  based_on :
      (base : Option Text) (task : TaskRow) (tenant : Text) (docs : List Revision)
      → (is_some base && not (has_revision base task tenant docs)) ≡ false
      → (base_revision : Text) → base ≡ some base_revision
      → (r : Revision) × IsRevisionOf task tenant base_revision docs r
  based_on none task tenant docs h b e = absurd (ground (arith, e))
  based_on (some a) task tenant docs h b e =
      let same : a ≡ b = ground (arith, e) in
      let found : has_revision (some a) task tenant docs ≡ true = ground (arith, h) in
      has_revision-IsRevisionOf b task tenant docs
        (subst (λ (t : Text). has_revision (some t) task tenant docs ≡ true) same found)

  allowed :
      (doc : DocForSave services) (task_id : ℕ) (tenant : Text) (s : Store) (task : TaskRow)
      → find_task task_id tenant s ≡ some task
      → not (same_option (some task.user_id) doc.user) ≡ false
      → (not task.is_validation
          && not (is_empty doc.validated && is_empty doc.failed_validation_pages))
        ≡ false
      → not (
          in_task
            (page_nums services doc.pages)
            doc.validated
            doc.failed_validation_pages
            task.pages)
        ≡ false
      → (is_some doc.base_revision && not (has_revision doc.base_revision task tenant s.docs))
        ≡ false
      → IsAllowed s doc task_id tenant task
  allowed doc task_id tenant s task found owned of_kind inside based =
      let (pages, validated, failed) =
        in_task-AreAmong (page_nums services doc.pages) doc.validated doc.failed_validation_pages
          task.pages (ground (arith, inside)) in
      record {
        found = find_task-IsTaskOf task_id tenant s task found;
        owner = sym ((same_option_iff (some task.user_id) doc.user).0 (ground (arith, owned)));
        kind = no_kind task.is_validation doc.validated doc.failed_validation_pages of_kind;
        pages = pages;
        validated = validated;
        failed = failed;
        base = based_on doc.base_revision task tenant s.docs based;
      }

  check_request-IsAllowed :
      (doc : DocForSave services) (task_id : ℕ) (tenant : Text) (s : Store)
      → Holds
          (λ task a. (a ≡ s) × IsAllowed s doc task_id tenant task)
          (λ a. a ≡ s)
          (check_request services doc task_id tenant s)
  check_request-IsAllowed doc task_id tenant s = >>=-Holds _ _ _ (
      raise_if-Holds _ _ s
        (λ with_user. >>=-Holds _ _ _ (
          returned (
            >>=-Holds _ _ _ (
              found_or-Holds _ _ s
                (λ task found. >>=-Holds _ _ _ (
                  raise_if-Holds _ _ s
                    (λ owned. >>=-Holds _ _ _ (
                      raise_if-Holds _ _ s
                        (λ of_kind. >>=-Holds _ _ _ (
                          raise_if-Holds _ _ s
                            (λ inside. >>=-Holds _ _ _ (
                              raise_if-Holds _ _ s
                                (λ based. returned (
                                  refl,
                                  allowed doc task_id tenant s task found owned of_kind inside
                                      based,
                                ))
                                refl))
                            refl))
                        refl))
                    refl))
                refl))))
        refl)

  -- A request that is refused leaves the revisions as they were; one that fails after the commit leaves
  -- the new revision.
  pub data IsRefused (before : Store) (doc : DocForSave services) (task_id : ℕ) (tenant : Text)
      (after : Store) : Type 0 where
    refused : after.docs ≡ before.docs → IsRefused before doc task_id tenant after
    half_saved :
        (task : TaskRow) (r : Revision)
        → IsAllowed before doc task_id tenant task
        → is_open task.status ≡ true
        → after.docs ≡ before.docs ++ r ∷ []
        → r.user ≡ doc.user
        → r.task_id ≡ some task_id
        → IsRefused before doc task_id tenant after

  abbrev pub author_of : DocForSave services → ℕ → Text → ℕ → TaskRow → Author
  author_of doc task_id tenant date task = record {
    user_id = doc.user;
    pipeline_id = none;
    job_id = task.job_id;
    file_id = task.file_id;
    tenant = tenant;
    task_id = some task_id;
    date = date;
  }

  -- The task is allowed and open, it is in progress afterwards, the base revision of the request is the latest
  -- or none of the request's pages is there, and construct_annotated_doc does the rest.
  pub record IsPosted (before : Store) (doc : DocForSave services) (task_id : ℕ) (tenant : Text)
      (date : ℕ) (r : Revision) (after : Store) : Type 0 where
    pub task : TaskRow
    pub allowed : IsAllowed before doc task_id tenant task
    pub open_task : is_open task.status ≡ true
    pub job : JobRow
    pub found_job : Stands job before.jobs × (job.job_id ≡ task.job_id)
    pub latest_doc : Option Revision
    pub latest : latest_doc ≡ newest services job task tenant before.docs
    pub is_latest : Bool
    pub base : is_latest ≡ matches_base latest_doc doc.base_revision
    pub merged :
        is_latest ≡ false
        → (page : ℕ) → contains page (page_nums services doc.pages) ≡ true
        → in_latest page latest_doc ≡ false
    pub is_new : Bool
    pub left : Store
    pub constructed_doc :
        IsConstructed services
          (author_of doc task_id tenant date task)
          doc
          latest_doc
          is_latest
          (begin task before)
          left
          (r, is_new)
    pub docs : after.docs ≡ left.docs
    pub tasks : after.tasks ≡ left.tasks
    pub messages :
        after.messages
        ≡ (if is_new then (task.job_id, task.file_id) ∷ left.messages else left.messages)

  update_task_status-Holds :
      (task : TaskRow) (s : Store)
      → Holds
          (λ _ a. (a ≡ begin task s) × (is_open task.status ≡ true))
          (λ a. a ≡ s)
          (update_task_status task s)
  update_task_status-Holds task s = go task.status refl
    where
      go :
          (status : TaskStatus)
          → task.status ≡ status
          → Holds
              (λ _ a. (a ≡ begin task s) × (is_open task.status ≡ true))
              (λ a. a ≡ s)
              (status_step task.id status s)
      go ready e =
          returned (
            rw e (ap (λ ts. record s { tasks = ts }) (set_status-begun task.id s.tasks)),
            rw e refl,
          )
      go in_progress e = returned (rw e refl, rw e refl)
      go pending e = raised refl
      go finished e = raised refl

  failed-IsRefused :
      (s : Store) (doc : DocForSave services) (task_id : ℕ) (tenant : Text) (date : ℕ)
      (task : TaskRow)
      → (latest_doc : Option Revision) (is_latest : Bool) (left : Store)
      → IsAllowed s doc task_id tenant task
      → is_open task.status ≡ true
      → IsFailed services
          (author_of doc task_id tenant date task)
          doc
          latest_doc
          is_latest
          (begin task s)
          left
      → IsRefused s doc task_id tenant left
  failed-IsRefused s doc task_id tenant date task latest_doc is_latest left a o (failed_before h) =
      refused h.docs
  failed-IsRefused s doc task_id tenant date task latest_doc is_latest left a o
        (failed_after {r = r} n h) =
      half_saved task r a o h.docs n.user n.task_id

  -- A request that succeeds is for a task with this id in a job of the tenant; the task is the user's and is ready
  -- or in progress; all pages that the request annotates, validates or fails are pages of it, and it is
  -- a validation task if there are validated or failed ones. The base revision, if one is given, is a
  -- revision of the task's file and job and of the tenant. With the last of these revisions (with extensive coverage, of
  -- those that SQL's IN finds for the user and NULL) as the latest, the base revision is the latest or there is none,
  -- or no page of the request is in it. The task is then in progress, what construct_annotated_doc does for this
  -- latest revision is done, and a message is sent for a new revision. A request that fails leaves the revisions
  -- as they were, or one more by the user for such a task that is open.
  pub post_annotation_by_user-IsPosted :
      (request : DocRequest services) (task_id : ℕ) (tenant : Text) (date : ℕ) (s : Store)
      → Holds
          (IsPosted s (check_null_fields services request) task_id tenant date)
          (IsRefused s (check_null_fields services request) task_id tenant)
          (post_annotation_by_user services request task_id tenant date s)
  unfolding post_annotation_by_user
  post_annotation_by_user-IsPosted request task_id tenant date s =
      let doc = check_null_fields services request in
      >>=-Holds _ _ _ (
        weaken-Holds
          (λ task a h. rw h.0 (
            >>=-Holds _ _ _ (
              weaken-Holds
                (λ _ b g. rw g.0 (
                  >>=-Holds _ _ _ (
                    lift-Holds _ (begin task s)
                      (λ file there. >>=-Holds _ _ _ (
                        returned (
                          >>=-Holds _ _ _ (
                            found_or-Holds _ _ (begin task s)
                              (λ job found.
                                let latest_doc = find_latest services job task tenant s.docs in
                                let is_latest = is_base latest_doc doc.base_revision in
                                let refusal =
                                  not is_latest
                                  && overlaps latest_doc (page_nums services doc.pages) in
                                >>=-Holds _ _ _ (
                                  raise_if-Holds refusal _ (begin task s)
                                    (λ apart.
                                      save_and_tell-Holds services
                                        (author_of doc task_id tenant date task) doc latest_doc
                                        is_latest (begin task s)
                                        (λ r is_new left c. record {
                                          task = task;
                                          allowed = h.1;
                                          open_task = g.1;
                                          job = job;
                                          found_job =
                                              find_job-Stands task.job_id (begin task s) job found;
                                          latest_doc = latest_doc;
                                          latest =
                                              find_latest-newest services job task tenant s.docs;
                                          is_latest = is_latest;
                                          base = is_base-matches_base latest_doc doc.base_revision;
                                          merged = λ old page c.
                                              overlaps-in_latest latest_doc
                                                (page_nums services doc.pages) page
                                                (ground (arith, apart, old)) c;
                                          is_new = is_new;
                                          left = left;
                                          constructed_doc = c;
                                          docs = refl;
                                          tasks = refl;
                                          messages = refl;
                                        })
                                        (λ left f.
                                          failed-IsRefused s doc task_id tenant date task latest_doc
                                            is_latest left h.1 g.1 f))
                                    (refused refl)))
                              (refused refl)))))
                      (refused refl))))
                (λ b g. rw g (refused refl)) (update_task_status-Holds task s))))
          (λ a h. rw h (refused refl)) (check_request-IsAllowed doc task_id tenant s))
