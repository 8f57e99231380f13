-- ===== src/Annotations/Post/Request.antt =====
-- What the queries and the checks of post_annotation_by_user find, as statements on the tables.
use badgerdoc.Base.{
  ℕ, ◌≡◌, refl, sym, ap, ◌∙◌, Bool, true, false, not, ◌&&◌, ◌==◌, ==_iff, Option, none, some, List,
  [], ◌∷◌, ◌++◌, if◌then◌else◌, contains, filter_by, any_by, has_key, number_key, Bool-cases, inl,
  inr, arith,
}
use badgerdoc.Distribution.Types.{in_progress}
use badgerdoc.Distribution.Run.{cross, hierarchical, validation_only, extensive_coverage}
use badgerdoc.Annotations.Types.{Text, same_text, Revision}
use badgerdoc.Annotations.Tables.{Services, TaskRow, JobRow, Store}
use badgerdoc.Annotations.Save.{extra}
use badgerdoc.Annotations.Save.Identity.{same_text-equal}
use badgerdoc.Annotations.Accumulate.Laws.{contains-filter_by}
use badgerdoc.Annotations.Request.{is_empty}
use badgerdoc.Annotations.Post.{
  is_visible, last_of, first_of, same_optional_text, is_of, has_revision, find_latest, is_base,
  overlaps, set_status, in_task, find_task, find_job, job_has_tenant,
}

abbrev pub Stands : {A : Type 0} → A → List A → Type 0
Stands {A = A} x xs = (before : List A) × (after : List A) × (xs ≡ before ++ x ∷ after)

Stands-cons : {A : Type 0} (x y : A) (xs : List A) → Stands x xs → Stands x (y ∷ xs)
Stands-cons x y xs (before, after, e) = (y ∷ before, after, ap (λ zs. y ∷ zs) e)

-- A task with this id, in a job of the tenant.
pub record IsTaskOf (store : Store) (task_id : ℕ) (tenant : Text) (task : TaskRow) : Type 0 where
  pub row : Stands task store.tasks
  pub id : task.id ≡ task_id
  pub job_tenant :
      (job : JobRow) × Stands job store.jobs × (job.job_id ≡ task.job_id) × (job.tenant ≡ tenant)

-- A revision with the id, of the task's file and job and of the tenant.
pub record IsRevisionOf (task : TaskRow) (tenant base : Text) (docs : List Revision) (r : Revision)
    : Type 0 where
  pub row : Stands r docs
  pub revision : base ≡ r.revision
  pub job_id : r.job_id ≡ task.job_id
  pub file_id : r.file_id ≡ task.file_id
  pub tenant_ : r.tenant ≡ tenant

first_of-Stands :
    {A : Type 0} (p : A → Bool) (xs : List A) (x : A)
    → first_of (filter_by p xs) ≡ some x
    → Stands x xs × (p x ≡ true)
first_of-Stands p [] x h = absurd (cc)
first_of-Stands {A = A} p (y ∷ xs) x h = elim (Bool-cases (p y)) [
  | inl e ↦
      let same : y ≡ x = ground (arith, h, e) in
      (([], xs, ap (λ (z : A). z ∷ xs) same), sym (ap p same) ∙ e)
  | inr e ↦
      let (there, found) = first_of-Stands p xs x (ground (arith, h, e)) in
      (Stands-cons x y xs there, found)
]

any_by-Stands :
    {A : Type 0} (p : A → Bool) (xs : List A)
    → any_by p xs ≡ true
    → (x : A) × Stands x xs × (p x ≡ true)
any_by-Stands p [] h = absurd (ground (arith, h))
any_by-Stands p (y ∷ xs) h = elim (Bool-cases (p y)) [
  | inl e ↦ (y, ([], xs, refl), e)
  | inr e ↦
      let (x, there, found) = any_by-Stands p xs (ground (arith, h, e)) in
      (x, Stands-cons x y xs there, found)
]

pub find_task-IsTaskOf :
    (task_id : ℕ) (tenant : Text) (store : Store) (task : TaskRow)
    → find_task task_id tenant store ≡ some task
    → IsTaskOf store task_id tenant task
find_task-IsTaskOf task_id tenant store task h =
    let (there, found) =
      first_of-Stands (λ task. task.id == task_id && job_has_tenant tenant task.job_id store.jobs)
        store.tasks task h in
    let (job, job_there, job_found) =
      any_by-Stands (λ job. job.job_id == task.job_id && same_text job.tenant tenant) store.jobs
        (ground (arith, found)) in
    record {
      row = there;
      id = (==_iff task.id task_id).0 (ground (arith, found));
      job_tenant = (
        job,
        job_there,
        (==_iff job.job_id task.job_id).0 (ground (arith, job_found)),
        same_text-equal job.tenant tenant (ground (arith, job_found)),
      );
    }

pub find_job-Stands :
    (job_id : ℕ) (store : Store) (job : JobRow)
    → find_job job_id store ≡ some job
    → Stands job store.jobs × (job.job_id ≡ job_id)
find_job-Stands job_id store job h =
    let (there, found) = first_of-Stands (λ job. job.job_id == job_id) store.jobs job h in
    (there, (==_iff job.job_id job_id).0 found)

pub has_revision-IsRevisionOf :
    (base : Text) (task : TaskRow) (tenant : Text) (docs : List Revision)
    → has_revision (some base) task tenant docs ≡ true
    → (r : Revision) × IsRevisionOf task tenant base docs r
has_revision-IsRevisionOf base task tenant docs h =
    let (r, there, found) =
      any_by-Stands
        (λ r. same_optional_text (some base) r.revision && is_of task.job_id task.file_id tenant r)
        docs h in
    (
      r,
      record {
        row = there;
        revision = same_text-equal base r.revision (ground (arith, found));
        job_id = (==_iff r.job_id task.job_id).0 (ground (arith, found));
        file_id = (==_iff r.file_id task.file_id).0 (ground (arith, found));
        tenant_ = same_text-equal r.tenant tenant (ground (arith, found));
      },
    )

-- Each of the pages is one of the others.
abbrev pub AreAmong : List ℕ → List ℕ → Type 0
AreAmong pages others = (page : ℕ) → contains page pages ≡ true → contains page others ≡ true

is_empty-contains : (page : ℕ) (xs : List ℕ) → is_empty xs ≡ true → contains page xs ≡ false
is_empty-contains page [] h = refl
is_empty-contains page (x ∷ xs) h = ground (arith, h)

extra-AreAmong :
    (pages others : List ℕ) → is_empty (extra pages others) ≡ true → AreAmong pages others
extra-AreAmong pages others h page c = ground (
  arith,
  c,
  is_empty-contains page (extra pages others) h,
  contains-filter_by page (λ p. not (contains p others)) pages,
)

pub in_task-AreAmong :
    (pages validated failed task_pages : List ℕ)
    → in_task pages validated failed task_pages ≡ true
    → AreAmong pages task_pages × AreAmong validated task_pages × AreAmong failed task_pages
in_task-AreAmong pages validated failed task_pages h = (
  extra-AreAmong pages task_pages (ground (arith, h)),
  extra-AreAmong validated task_pages (ground (arith, h)),
  extra-AreAmong failed task_pages (ground (arith, h)),
)

-- The rows of the task are in progress.
abbrev pub begun : ℕ → List TaskRow → List TaskRow
begun task_id [] = []
begun task_id (task ∷ tasks) =
    let rest = begun task_id tasks in
    if task.id == task_id then record task { status = in_progress } ∷ rest else task ∷ rest

pub set_status-begun :
    (task_id : ℕ) (tasks : List TaskRow)
    → set_status task_id in_progress tasks ≡ begun task_id tasks
set_status-begun task_id [] = refl
set_status-begun task_id (task ∷ tasks) = ground (arith, set_status-begun task_id tasks)

abbrev pub in_latest : ℕ → Option Revision → Bool
in_latest page none = false
in_latest page (some latest_doc) = has_key page latest_doc.pages

-- There is no latest revision, or the base revision is its id.
abbrev pub matches_base : Option Revision → Option Text → Bool
matches_base none base = true
matches_base (some latest_doc) none = false
matches_base (some latest_doc) (some base) = same_text base latest_doc.revision

pub is_base-matches_base :
    (latest_doc : Option Revision) (base : Option Text)
    → is_base latest_doc base ≡ matches_base latest_doc base
is_base-matches_base none base = refl
is_base-matches_base (some latest_doc) none = refl
is_base-matches_base (some latest_doc) (some base) = refl

pub overlaps-in_latest :
    (latest_doc : Option Revision) (pages : List ℕ) (page : ℕ)
    → overlaps latest_doc pages ≡ false
    → contains page pages ≡ true
    → in_latest page latest_doc ≡ false
overlaps-in_latest none pages page h c = refl
overlaps-in_latest (some l) [] page h c = ground (arith, c)
overlaps-in_latest (some l) (p ∷ pages) page h c = elim (Bool-cases (page == p)) [
  | inl e ↦ ap (λ q. has_key q l.pages) ((==_iff page p).0 e) ∙ ground (arith, h)
  | inr e ↦ overlaps-in_latest (some l) pages page (ground (arith, h)) (ground (arith, c, e))
]

last_of-cons : {A : Type 0} (x : A) (xs : List A) → (l : A) × (last_of (x ∷ xs) ≡ some l)
last_of-cons x [] = (x, refl)
last_of-cons x (y ∷ xs) = last_of-cons y xs

last_of_first :
    {A : Type 0} (x : A) (xs : List A)
    → last_of (x ∷ xs) ≡ elim (last_of xs) [ some l ↦ some l | none ↦ some x ]
last_of_first x [] = refl
last_of_first x (y ∷ xs) = let (l, e) = last_of-cons y xs in ground (arith, e)

module _ (services : Services) where
  -- A revision that the request may go on from: of the task's file and job and of the tenant, and with extensive
  -- coverage one that SQL's IN finds for the user of the task and NULL.
  abbrev pub is_eligible : JobRow → TaskRow → Text → Revision → Bool
  is_eligible job task tenant r =
      if r.job_id == task.job_id
      then (if r.file_id == task.file_id
          then (if same_text r.tenant tenant
              then elim job.validation_type [
                | cross ↦ true
                | hierarchical ↦ true
                | validation_only ↦ true
                | extensive_coverage ↦ services.in_ (some task.user_id ∷ none ∷ []) r.user
              ]
              else false)
          else false)
      else false

  -- The last of them; the revisions are in the order of their dates.
  abbrev pub newest : JobRow → TaskRow → Text → List Revision → Option Revision
  newest job task tenant [] = none
  newest job task tenant (r ∷ rs) = elim (newest job task tenant rs) [
    | some l ↦ some l
    | none ↦ if is_eligible job task tenant r then some r else none
  ]

  is_eligible_lem :
      (job : JobRow) (task : TaskRow) (tenant : Text) (r : Revision)
      → is_of task.job_id task.file_id tenant r
          && is_visible services job.validation_type (some task.user_id ∷ none ∷ []) r
        ≡ is_eligible job task tenant r
  is_eligible_lem job task tenant r =
      elim job.validation_type
        as (λ t.
          is_of task.job_id task.file_id tenant r
            && is_visible services t (some task.user_id ∷ none ∷ []) r
          ≡ (if r.job_id == task.job_id
              then (if r.file_id == task.file_id
                  then (if same_text r.tenant tenant
                      then elim t [
                        | cross ↦ true
                        | hierarchical ↦ true
                        | validation_only ↦ true
                        | extensive_coverage ↦ services.in_ (some task.user_id ∷ none ∷ []) r.user
                      ]
                      else false)
                  else false)
              else false)) [
                | cross ↦ ground arith
                | hierarchical ↦ ground arith
                | validation_only ↦ ground arith
                | extensive_coverage ↦ ground arith
              ]

  pub find_latest-newest :
      (job : JobRow) (task : TaskRow) (tenant : Text) (docs : List Revision)
      → find_latest services job task tenant docs ≡ newest job task tenant docs
  find_latest-newest job task tenant [] = refl
  find_latest-newest job task tenant (r ∷ rs) = elim (Bool-cases (is_eligible job task tenant r)) [
    | inl e ↦ ground (
      arith,
      e,
      is_eligible_lem job task tenant r,
      find_latest-newest job task tenant rs,
      last_of_first r (
          filter_by
            (λ r.
              is_of task.job_id task.file_id tenant r
              && is_visible services job.validation_type (some task.user_id ∷ none ∷ []) r)
            rs),
    )
    | inr e ↦
        ground (arith, e, is_eligible_lem job task tenant r, find_latest-newest job task tenant rs)
  ]
