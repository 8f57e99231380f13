-- ===== src/Distribution/Whole/Laws.antt =====
-- The distribution of whole files does not raise, keeps every page, and stays within the loads.
use badgerdoc.Base.{
  ℕ, ◌+◌, ◌≡◌, refl, ap₂, pos_part, ok, List, [], ◌∷◌, ◌++◌, All, All-append, arith, if◌then◌else◌,
}
use badgerdoc.Distribution.Types.{
  FileItem, User, Settings, Task, total_pages, remaining, IsDistinct, IsConsistent, covered,
  covered-append, covered_by-owner, covered_by-append, workload, workload-append, IsSized,
}
use badgerdoc.Distribution.Annotated.{AnnotatedFilesPages, own_work, any_fresh}
use badgerdoc.Distribution.Loads.{IsNonneg, loads, load_of, user_ids}
use badgerdoc.Distribution.Whole.{distribute_whole_files}
use badgerdoc.Distribution.Whole.Stage.{distribute_to_user_total, load_parts}

module _ {F : Type 0} where
  -- What the stage of whole files leaves behind.
  pub record IsWholeStage (annotated : AnnotatedFilesPages) (settings : Settings)
      (files : List FileItem) (users : List (User F)) : Type 0 where
    pub tasks : List Task
    pub users' : List (User F)
    pub files' : List FileItem
    pub returned :
        distribute_whole_files annotated settings files users ≡ ok (tasks, users', files')
    pub same_users : user_ids users' ≡ user_ids users
    pub moved :
        (id page : ℕ) → covered id page tasks + remaining id page files' ≡ remaining id page files
    pub shares : (id : ℕ) → workload id tasks + load_of id users' ≡ load_of id users
    pub balance : total_pages files' + loads users ≡ total_pages files + loads users'
    pub sized : All IsSized tasks
    pub foreign : (user id page : ℕ) → own_work annotated user id page tasks ≡ 0
    pub untouched :
        (id page : ℕ) → (if any_fresh annotated users id page then 0 else covered id page tasks) ≡ 0
    pub nonneg : IsNonneg users'
    pub distinct : IsDistinct files'
    pub consistent : All IsConsistent files'

  -- Files with distinct ids and consistent numbers, and loads of zero or more: the stage returns; each
  -- page is in the tasks or still in the files, as often as it was in the files; the pages of a user's
  -- tasks and the load that is left make up the load, which does not become negative; no task of a user
  -- holds a page that the user annotates, and no task a page that all users annotate; every task has 1 to 50
  -- pages.
  pub distribute_whole_files_total :
      (annotated : AnnotatedFilesPages) (settings : Settings) (files : List FileItem)
      (users : List (User F))
      → IsDistinct files
      → All IsConsistent files
      → IsNonneg users
      → IsWholeStage annotated settings files users
  unfolding distribute_whole_files
  distribute_whole_files_total annotated settings files [] d c h = record {
    tasks = [];
    users' = [];
    files' = files;
    returned = refl;
    same_users = refl;
    moved = λ id page. omega arith;
    shares = λ id. omega arith;
    balance = refl;
    sized = tt;
    foreign = λ u id page. ground arith;
    untouched = λ id page. refl;
    nonneg = tt;
    distinct = d;
    consistent = c;
  }
  distribute_whole_files_total annotated settings files (user ∷ users) d c h =
      let a = distribute_to_user_total annotated settings user files d c h.0 in
      let b =
        distribute_whole_files_total annotated settings a.files' users a.moves.distinct
          a.moves.consistent h.1 in
      let spent : pos_part a.user'.pages_number + a.number ≡ pos_part user.pages_number =
        load_parts a.number a.user'.pages_number h.0 a.nonneg a.moves.load in
      record {
        tasks = a.tasks ++ b.tasks;
        users' = a.user' ∷ b.users';
        files' = b.files';
        returned = rw a.returned (rw b.returned);
        same_users = ap₂ (λ x xs. x ∷ xs) a.moves.same_user b.same_users;
        moved = λ id page.
            omega (
              arith,
              covered-append id page a.tasks b.tasks,
              a.moves.moved id page,
              b.moved id page,
            );
        shares = λ id. ground (
          arith,
          workload-append id a.tasks b.tasks,
          a.moves.given id,
          b.shares id,
          a.moves.same_user,
          spent,
        );
        balance = omega (arith, a.moves.fewer, b.balance, spent);
        sized = All-append IsSized a.tasks b.tasks a.moves.sized b.sized;
        foreign = λ u id page. ground (
          arith,
          covered_by-append u id page a.tasks b.tasks,
          a.foreign u id page,
          b.foreign u id page,
        );
        untouched = λ id page. ground (
          arith,
          covered-append id page a.tasks b.tasks,
          covered_by-owner user.user_id id page a.tasks a.owned,
          a.foreign user.user_id id page,
          b.untouched id page,
        );
        nonneg = (a.nonneg, b.nonneg);
        distinct = b.distinct;
        consistent = b.consistent;
      }
