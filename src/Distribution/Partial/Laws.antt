-- ===== src/Distribution/Partial/Laws.antt =====
-- The whole stage of partial files: it does not raise while the loads cover the pages, hands out every
-- page, and gives no user more than the load.
use badgerdoc.Base.{
  ℕ, ◌+◌, ◌≤◌, ◌<◌, ◌≡◌, refl, ◌∙◌, ok, List, [], ◌∷◌, ◌++◌, All, All-append, arith,
}
use badgerdoc.Distribution.Types.{
  FileItem, User, Settings, Task, item_pages, total_pages, remaining, IsConsistent, covered,
  covered-append, workload, workload-append, IsSized,
}
use badgerdoc.Distribution.Loads.{IsNonneg, IsPositive, loads, load_of}
use badgerdoc.Distribution.Partial.{place_item, place_items, distribute_annotation_partial_files}
use badgerdoc.Distribution.Partial.Filter.{
  with_load, with_load-IsKept, with_pages, with_pages-IsOffered,
}
use badgerdoc.Distribution.Partial.Step.{held}
use badgerdoc.Distribution.Partial.Loop.{
  IsOpen, IsReady-IsOpen, pop_spent_total, place_pages_total, place_rest_total,
}

held-nil : {F : Type 0} (id : ℕ) (annotators : List (User F)) → held id [] annotators ≡ 0
held-nil id [] = refl
held-nil id (a ∷ rest) = ground arith

module _ {F : Type 0} where
  -- What handing out the pages of some files does to the loads.
  record IsGiven (files : List FileItem) (annotators : List (User F)) (tasks : List Task)
      (annotators' : List (User F)) : Type 0 where
    pages_covered : (id page : ℕ) → covered id page tasks ≡ remaining id page files
    shares : (id : ℕ) → workload id tasks + load_of id annotators' ≡ load_of id annotators
    fewer : loads annotators' + total_pages files ≡ loads annotators
    sized : All IsSized tasks
    opened : IsOpen annotators'

  record IsGivenItem (settings : Settings) (item : FileItem) (annotators : List (User F))
      : Type 0 where
    tasks : List Task
    annotators' : List (User F)
    returned : place_item settings item annotators ≡ ok (tasks, annotators')
    given : IsGiven (item ∷ []) annotators tasks annotators'

  place_item_total :
      (settings : Settings) (item : FileItem) (annotators : List (User F))
      → IsOpen annotators
      → IsConsistent item
      → 0 < item.pages_number
      → item.pages_number ≤ loads annotators
      → IsGivenItem settings item annotators
  unfolding place_item
  place_item_total settings item annotators o c some h =
      let a = pop_spent_total annotators o (omega arith) in
      let b =
        place_pages_total settings item.file_id (item_pages item) [] a.annotators' a.ready
          (omega (arith, a.same_loads)) in
      let p = b.placed in
      let l = place_rest_total settings item.file_id b.pages' b.annotators' p.ready in
      record {
        tasks = b.tasks ++ l.tasks;
        annotators' = b.annotators';
        returned = rw a.returned (rw b.returned (rw l.returned));
        given = record {
          pages_covered = λ id page. ground (
            arith,
            covered-append id page b.tasks l.tasks,
            p.pages_kept id page,
            l.pages_covered id page,
          );
          shares = λ id. omega (
            arith,
            workload-append id b.tasks l.tasks,
            p.shares id,
            l.given id,
            a.same_load id,
            held-nil id a.annotators',
          );
          fewer = omega (arith, p.fewer, a.same_loads);
          sized = All-append IsSized b.tasks l.tasks p.sized l.sized;
          opened = IsReady-IsOpen b.pages' b.annotators' p.ready;
        };
      }

  record IsGivenItems (settings : Settings) (items : List FileItem) (annotators : List (User F))
      : Type 0 where
    tasks : List Task
    annotators' : List (User F)
    returned : place_items settings items annotators ≡ ok (tasks, annotators')
    given : IsGiven items annotators tasks annotators'

  place_items_total :
      (settings : Settings) (items : List FileItem) (annotators : List (User F))
      → IsOpen annotators
      → All IsConsistent items
      → All (λ f. 0 < f.pages_number) items
      → total_pages items ≤ loads annotators
      → IsGivenItems settings items annotators
  unfolding place_items
  place_items_total settings [] annotators o c some h = record {
    tasks = [];
    annotators' = annotators;
    returned = refl;
    given = record {
      pages_covered = λ id page. refl;
      shares = λ id. omega arith;
      fewer = omega arith;
      sized = tt;
      opened = o;
    };
  }
  place_items_total settings (item ∷ items) annotators o c some h =
      let a = place_item_total settings item annotators o c.0 some.0 (omega arith) in
      let g = a.given in
      let b =
        place_items_total settings items a.annotators' g.opened c.1 some.1
          (omega (arith, g.fewer)) in
      let k = b.given in
      record {
        tasks = a.tasks ++ b.tasks;
        annotators' = b.annotators';
        returned = rw a.returned (rw b.returned);
        given = record {
          pages_covered = λ id page. omega (
            arith,
            covered-append id page a.tasks b.tasks,
            g.pages_covered id page,
            k.pages_covered id page,
          );
          shares =
              λ id. omega (arith, workload-append id a.tasks b.tasks, g.shares id, k.shares id);
          fewer = omega (arith, g.fewer, k.fewer);
          sized = All-append IsSized a.tasks b.tasks g.sized k.sized;
          opened = k.opened;
        };
      }

  IsPositive-IsOpen : (annotators : List (User F)) → IsPositive annotators → IsOpen annotators
  IsPositive-IsOpen [] h = tt
  IsPositive-IsOpen (a ∷ rest) h = (omega (arith, h.0), h.1)

  pub load_of-le-loads : (id : ℕ) (users : List (User F)) → load_of id users ≤ loads users
  load_of-le-loads id [] = omega arith
  load_of-le-loads id (u ∷ users) = ground (arith, load_of-le-loads id users)

  pub record IsHandedOut (settings : Settings) (files : List FileItem) (annotators : List (User F))
      : Type 0 where
    pub tasks : List Task
    pub returned : distribute_annotation_partial_files settings files annotators ≡ ok tasks
    pub pages_covered : (id page : ℕ) → covered id page tasks ≡ remaining id page files
    pub left : List (User F)
    pub shares : (id : ℕ) → workload id tasks + load_of id left ≡ load_of id annotators
    pub fewer : loads left + total_pages files ≡ loads annotators
    pub sized : All IsSized tasks

  -- If the numbers of the files are consistent, no load is negative and the loads hold all pages, then
  -- the stage returns (it never runs out of annotators); its tasks hold each page as often as the files
  -- offer it; the pages of a user's tasks and the load that is left make up the load, and the loads left
  -- are those that the number of pages does not use up; every task has 1 to 50 pages.
  pub distribute_annotation_partial_files_total :
      (settings : Settings) (files : List FileItem) (annotators : List (User F))
      → All IsConsistent files
      → IsNonneg annotators
      → total_pages files ≤ loads annotators
      → IsHandedOut settings files annotators
  unfolding distribute_annotation_partial_files
  distribute_annotation_partial_files_total settings files annotators c n h =
      let u = with_load-IsKept annotators n in
      let f = with_pages-IsOffered files c in
      let r =
        place_items_total settings (with_pages files) (with_load annotators)
          (IsPositive-IsOpen (with_load annotators) u.positive) f.consistent f.positive
          (omega (arith, f.same_total, u.same_loads)) in
      let g = r.given in
      record {
        tasks = r.tasks;
        returned = rw r.returned;
        pages_covered = λ id page. g.pages_covered id page ∙ f.same_pages id page;
        left = r.annotators';
        shares = λ id. omega (arith, g.shares id, u.same_load id);
        fewer = omega (arith, g.fewer, u.same_loads, f.same_total);
        sized = g.sized;
      }
