-- ===== src/Distribution/Run/Annotation.antt =====
-- distribute_tasks for annotation, from the loads of calculate_users_load to the tasks.
use badgerdoc.Base.{
  ℕ, ◌+◌, ◌≡◌, refl, ap, ℤ, pos, negsuc, int_laws, pos_part, ◌+ℤ◌, ◌≤ℤ◌, if-false, false, ok, List,
  [], ◌∷◌, ◌++◌, All, All-append, arith,
}
use badgerdoc.Distribution.Types.{
  FileItem, User, Settings, Task, total_pages, remaining, IsDistinct, IsConsistent, covered,
  covered-append, workload, workload-append, IsSized,
}
use badgerdoc.Distribution.Annotated.{AnnotatedFilesPages}
use badgerdoc.Distribution.Loads.{IsNonneg, loads, load_of}
use badgerdoc.Distribution.Load.{FloatOps, calculate_users_load, sum_loads}
use badgerdoc.Distribution.Load.Laws.{calculate_users_load-sum}
use badgerdoc.Distribution.Whole.Laws.{distribute_whole_files_total}
use badgerdoc.Distribution.Partial.Laws.{
  distribute_annotation_partial_files_total, load_of-le-loads,
}
use badgerdoc.Distribution.Run.{distribute_tasks}

add_nonneg : (x : ℤ) (n : ℕ) → pos 0 ≤ℤ x → x +ℤ pos n ≡ pos (pos_part x + n)
add_nonneg (pos m) n h = omega int_laws
add_nonneg (negsuc m) n h = absurd (omega arith)

sum_loads-loads :
    {F : Type 0} (users : List (User F)) → IsNonneg users → sum_loads users ≡ pos (loads users)
unfolding sum_loads
sum_loads-loads [] h = refl
sum_loads-loads (u ∷ users) h =
    rw (sum_loads-loads users h.1) (add_nonneg u.pages_number (loads users) h.0)

-- All pages of the files are given to annotators, once each, in tasks of 1 to 50 pages, and every user
-- gets the load that was calculated.
pub record IsAnnotated {F : Type 0} (files : List FileItem) (loaded : List (User F))
    (tasks : List Task) : Type 0 where
  pub pages_covered : (id page : ℕ) → covered id page tasks ≡ remaining id page files
  pub fills_load : (id : ℕ) → workload id tasks ≡ load_of id loaded
  pub sized : All IsSized tasks

module _ (ops : FloatOps) where
  open ops use {Float}

  -- If calculate_users_load returns loads of which none is negative, then for files with distinct ids and
  -- consistent numbers distribute_tasks returns annotation tasks: they hold each page exactly as often
  -- as the files offer it, every user gets exactly the calculated load, and every task has 1 to 50
  -- pages.
  pub distribute_tasks-IsAnnotated :
      (fuel : ℕ) (to_set : List ℕ → List ℕ) (annotated : AnnotatedFilesPages)
      (files : List FileItem) (users loaded : List (User Float)) (settings : Settings)
      → calculate_users_load ops fuel files users 1 ≡ ok loaded
      → IsNonneg loaded
      → IsDistinct files
      → All IsConsistent files
      → settings.is_validation ≡ false
      → (tasks : List Task) × (distribute_tasks ops fuel to_set annotated files users settings
          ≡ ok tasks)
        × IsAnnotated files loaded tasks
  unfolding distribute_tasks
  distribute_tasks-IsAnnotated fuel to_set annotated files users loaded settings calculated n d c
        kind =
      let whole = distribute_whole_files_total annotated settings files loaded d c n in
      let sum = (calculate_users_load-sum ops fuel files users 1 calculated).0 in
      let same = sum_loads-loads loaded n in
      let full : total_pages whole.files' ≡ loads whole.users' =
        omega (arith, ap pos_part sum, ap pos_part same, whole.balance) in
      let part =
        distribute_annotation_partial_files_total settings whole.files' whole.users'
          whole.consistent whole.nonneg (omega arith) in
      (
        whole.tasks ++ part.tasks,
        rw calculated (rw whole.returned (rw (if-false _ _ kind) (rw part.returned))),
        record {
          pages_covered = λ id page. omega (
            arith,
            covered-append id page whole.tasks part.tasks,
            whole.moved id page,
            part.pages_covered id page,
          );
          fills_load = λ id. omega (
            arith,
            workload-append id whole.tasks part.tasks,
            whole.shares id,
            part.shares id,
            part.fewer,
            full,
            load_of-le-loads id part.left,
          );
          sized = All-append IsSized whole.tasks part.tasks whole.sized part.sized;
        },
      )
