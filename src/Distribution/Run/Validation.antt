-- ===== src/Distribution/Run/Validation.antt =====
-- distribute_tasks for validation, also where the validators are the annotators.
use badgerdoc.Base.{
  ℕ, ◌≤◌, ◌≡◌, refl, ap, true, not, if-true, if◌then◌else◌, ok, List, [], ◌∷◌, ◌++◌, contains-count,
  any_by, All, All-append, arith,
}
use badgerdoc.Distribution.Types.{
  FileItem, User, Settings, Task, item_pages, remaining, IsDistinct, IsOnce, IsConsistent, covered,
  covered-append, covered_by-append, IsSized,
}
use badgerdoc.Distribution.Annotated.{AnnotatedFilesPages, annotates, own_work, any_fresh}
use badgerdoc.Distribution.Loads.{IsNonneg}
use badgerdoc.Distribution.Load.{FloatOps, calculate_users_load}
use badgerdoc.Distribution.Whole.Laws.{distribute_whole_files_total}
use badgerdoc.Distribution.Validation.{distribute_validation_partial_files}
use badgerdoc.Distribution.Validation.Sets.{IsToSet, offered}
use badgerdoc.Distribution.Validation.Laws.{distribute_validation_partial_files-IsValidated}
use badgerdoc.Distribution.Run.{distribute_tasks}

offered-eq-remaining :
    (id page : ℕ) (files : List FileItem)
    → remaining id page files ≤ 1
    → offered id page files ≡ remaining id page files
offered-eq-remaining id page [] h = refl
offered-eq-remaining id page (f ∷ files) h =
    ground (arith, offered-eq-remaining id page files, contains-count page (item_pages f))

-- Every page that somebody may validate is given out once, nobody validates the own work, and every
-- task has 1 to 50 pages.
pub record IsCrossChecked {F : Type 0} (annotated : AnnotatedFilesPages) (files : List FileItem)
    (loaded : List (User F)) (tasks : List Task) : Type 0 where
  pub pages_covered :
      (id page : ℕ)
      → covered id page tasks
        ≡ (if any_fresh annotated loaded id page then remaining id page files else 0)
  pub foreign : (user id page : ℕ) → own_work annotated user id page tasks ≡ 0
  pub sized : All IsSized tasks

module _ (ops : FloatOps) where
  open ops use {Float}

  -- If calculate_users_load returns loads of which none is negative, then for files with distinct ids and
  -- consistent numbers that offer no page twice distribute_tasks returns validation tasks: a page that is
  -- offered is in exactly one of them if some validator does not annotate it, and in none if all of them
  -- annotate it; no task of a user holds a page that the user annotates; every task has 1 to 50 pages.
  pub distribute_tasks-IsCrossChecked :
      (fuel : ℕ) (to_set : List ℕ → List ℕ) (annotated : AnnotatedFilesPages)
      (files : List FileItem) (users loaded : List (User Float)) (settings : Settings)
      → IsToSet to_set
      → calculate_users_load ops fuel files users 1 ≡ ok loaded
      → IsNonneg loaded
      → IsDistinct files
      → IsOnce files
      → All IsConsistent files
      → settings.is_validation ≡ true
      → (tasks : List Task) × (distribute_tasks ops fuel to_set annotated files users settings
          ≡ ok tasks)
        × IsCrossChecked annotated files loaded tasks
  unfolding distribute_tasks
  distribute_tasks-IsCrossChecked fuel to_set annotated files users loaded settings law calculated n
        d once c kind =
      let whole = distribute_whole_files_total annotated settings files loaded d c n in
      let part =
        distribute_validation_partial_files to_set annotated whole.files' whole.users' settings in
      let v =
        distribute_validation_partial_files-IsValidated to_set law annotated whole.files'
          whole.users' settings whole.distinct in
      (
        whole.tasks ++ part,
        rw calculated (rw whole.returned (rw (if-true _ _ kind) refl)),
        record {
          pages_covered = λ id page.
              let same : any_fresh annotated whole.users' id page
                  ≡ any_fresh annotated loaded id page =
                ap (any_by (λ user. not (annotates annotated user id page))) whole.same_users in
              let kept = whole.moved id page in
              let few = once id page in
              ground (
                arith,
                covered-append id page whole.tasks part,
                kept,
                whole.untouched id page,
                v.pages_covered id page,
                offered-eq-remaining id page whole.files' (omega arith),
                same,
              );
          foreign = λ user id page. ground (
            arith,
            covered_by-append user id page whole.tasks part,
            whole.foreign user id page,
            v.foreign user id page,
          );
          sized = All-append IsSized whole.tasks part whole.sized v.sized;
        },
      )
