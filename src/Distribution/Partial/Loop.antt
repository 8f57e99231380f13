-- ===== src/Distribution/Partial/Loop.antt =====
-- The loop over the pages of one file, what stands before it and what stands behind it.
use badgerdoc.Base.{
  ℕ, ◌≤◌, ◌<◌, ◌≡◌, refl, inl, inr, pos, ◌≤ℤ◌, ◌==ℤ◌, ok, List, [], ◌∷◌, ◌++◌, if◌then◌else◌, ◌==◌,
  length, count, All, All-append, arith, Bool-cases,
}
use badgerdoc.Distribution.Types.{
  User, Settings, Task, covered, covered-append, workload, workload-append, IsSized,
}
use badgerdoc.Distribution.Tasks.{tasks_number, chunk_tasks}
use badgerdoc.Distribution.Tasks.Chunks.{chunk_tasks-IsCut}
use badgerdoc.Distribution.Loads.{IsPositive, loads, load_of}
use badgerdoc.Distribution.Partial.{annotation, pop_spent, place_pages, place_rest}
use badgerdoc.Distribution.Partial.Step.{IsReady, held, IsPlaced, place_page_total}

module _ {F : Type 0} where
  pub record IsLoop (settings : Settings) (file : ℕ) (left pages : List ℕ)
      (annotators : List (User F)) : Type 0 where
    pub tasks : List Task
    pub pages' : List ℕ
    pub annotators' : List (User F)
    pub returned : place_pages settings file left pages annotators ≡ ok (tasks, pages', annotators')
    pub placed : IsPlaced file left pages annotators tasks pages' annotators'

  pub place_pages_total :
      (settings : Settings) (file : ℕ) (left pages : List ℕ) (annotators : List (User F))
      → IsReady pages annotators
      → length left ≤ loads annotators
      → IsLoop settings file left pages annotators
  unfolding place_pages
  place_pages_total settings file [] pages annotators r h = record {
    tasks = [];
    pages' = pages;
    annotators' = annotators;
    returned = refl;
    placed = record {
      pages_kept = λ id page. ground arith;
      shares = λ id. omega arith;
      fewer = omega arith;
      sized = tt;
      ready = r;
    };
  }
  place_pages_total settings file (page ∷ left) pages annotators r h =
      let a = place_page_total settings file page pages annotators r (omega arith) in
      let p = a.placed in
      let b =
        place_pages_total settings file left a.pages' a.annotators' p.ready
          (omega (arith, p.fewer)) in
      let q = b.placed in
      record {
        tasks = a.tasks ++ b.tasks;
        pages' = b.pages';
        annotators' = b.annotators';
        returned = rw a.returned (rw b.returned);
        placed = record {
          pages_kept = λ id x.
              ground
                (arith, covered-append id x a.tasks b.tasks, p.pages_kept id x, q.pages_kept id x);
          shares =
              λ id. omega (arith, workload-append id a.tasks b.tasks, p.shares id, q.shares id);
          fewer = omega (arith, p.fewer, q.fewer);
          sized = All-append IsSized a.tasks b.tasks p.sized q.sized;
          ready = q.ready;
        };
      }

  -- Between two files: only the first annotator may have used up the load.
  abbrev pub IsOpen : List (User F) → Type 0
  IsOpen [] = Unit
  IsOpen (a ∷ rest) = (pos 0 ≤ℤ a.pages_number) × IsPositive rest

  pub record IsPopped (annotators : List (User F)) : Type 0 where
    pub annotators' : List (User F)
    pub returned : pop_spent annotators ≡ ok annotators'
    pub ready : IsReady [] annotators'
    pub same_loads : loads annotators' ≡ loads annotators
    pub same_load : (id : ℕ) → load_of id annotators' ≡ load_of id annotators

  pub pop_spent_total :
      (annotators : List (User F)) → IsOpen annotators → 0 < loads annotators → IsPopped annotators
  unfolding pop_spent
  pop_spent_total [] o h = absurd (omega arith)
  pop_spent_total (a ∷ []) o h = record {
    annotators' = a ∷ [];
    returned = ground arith;
    ready = ground arith;
    same_loads = refl;
    same_load = λ id. refl;
  }
  pop_spent_total (a ∷ b ∷ rest) o h = elim (Bool-cases (a.pages_number ==ℤ pos 0)) [
    | inl spent ↦ record {
      annotators' = b ∷ rest;
      returned = rw spent;
      ready = ground (arith, o.1.0, o.1.1);
      same_loads = ground (arith, spent);
      same_load = λ id. ground (arith, spent);
    }
    | inr load ↦ record {
      annotators' = a ∷ b ∷ rest;
      returned = rw load;
      ready = (o.0, o.1, omega arith, inr (ground (arith, load, o.0)));
      same_loads = refl;
      same_load = λ id. refl;
    }
  ]

  pub IsReady-IsOpen :
      (pages : List ℕ) (annotators : List (User F)) → IsReady pages annotators → IsOpen annotators
  IsReady-IsOpen pages [] r = tt
  IsReady-IsOpen pages (a ∷ rest) r = (r.0, r.1)

  -- The last task or tasks of a file: they hold the pages that are left, for the first annotator.
  pub record IsLast (settings : Settings) (file : ℕ) (pages : List ℕ) (annotators : List (User F))
      : Type 0 where
    pub tasks : List Task
    pub returned : place_rest settings file pages annotators ≡ ok tasks
    pub pages_covered :
        (id page : ℕ) → covered id page tasks ≡ (if file == id then count page pages else 0)
    pub given : (id : ℕ) → workload id tasks ≡ held id pages annotators
    pub sized : All IsSized tasks

  pub place_rest_total :
      (settings : Settings) (file : ℕ) (pages : List ℕ) (annotators : List (User F))
      → IsReady pages annotators
      → IsLast settings file pages annotators
  unfolding place_rest
  place_rest_total settings file pages [] r = absurd r
  place_rest_total settings file [] (a ∷ rest) r = record {
    tasks = [];
    returned = refl;
    pages_covered = λ id page. ground arith;
    given = λ id. ground arith;
    sized = tt;
  }
  place_rest_total settings file (p ∷ ps) (a ∷ rest) r =
      let cut = chunk_tasks-IsCut (annotation settings) file a.user_id (p ∷ ps) in
      record {
        tasks =
            (chunk_tasks (annotation settings) file a.user_id (tasks_number (p ∷ ps)) (p ∷ ps)).0;
        returned = refl;
        pages_covered = cut.pages_covered;
        given = cut.given;
        sized = cut.sized;
      }
