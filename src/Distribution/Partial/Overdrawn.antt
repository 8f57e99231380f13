-- ===== src/Distribution/Partial/Overdrawn.antt =====
-- A first annotator with a negative load: the stage counts it down for ever, so `annotators.pop(0)` is
-- never reached.
use badgerdoc.Base.{
  ℕ, ◌+◌, ◌≡◌, refl, ◌∙◌, inl, inr, pos, negsuc, ◌-ℤ◌, ◌≤ℤ◌, ◌==ℤ◌, -ℤ_parts, ok, List, [], ◌∷◌,
  ◌++◌, if◌then◌else◌, ◌==◌, ltb, length, count, count-append, All, All-append, arith, Bool-cases,
  if-false, false,
}
use badgerdoc.Distribution.Types.{
  owner_trans, FileItem, User, Settings, Task, item_pages, new_task, remaining, IsConsistent,
  covered, covered-append,
}
use badgerdoc.Distribution.Tasks.{tasks_number, chunk_tasks}
use badgerdoc.Distribution.Tasks.Chunks.{chunk_tasks-IsCut}
use badgerdoc.Distribution.Partial.{
  annotation, pop_spent, place_page, place_pages, place_rest, place_item, place_items,
  distribute_annotation_partial_files,
}
use badgerdoc.Distribution.Partial.Filter.{with_load, with_pages, with_pages-IsOffered}

-- All pages of the files are in the tasks of one user.
pub record IsAllFor (owner : ℕ) (files : List FileItem) (tasks : List Task) : Type 0 where
  pub pages_covered : (id page : ℕ) → covered id page tasks ≡ remaining id page files
  pub owned : All (λ t. t.user_id ≡ owner) tasks

module _ {F : Type 0} where
  abbrev pub IsOverdrawn : User F → Type 0
  IsOverdrawn a = a.pages_number ≤ℤ negsuc 0

  -- Between two states of the loop the first annotator takes all pages, and stays overdrawn.
  record IsTaken (file : ℕ) (placed pages : List ℕ) (a : User F) (tasks : List Task)
      (pages' : List ℕ) (a' : User F) : Type 0 where
    kept :
        (id page : ℕ)
        → covered id page tasks + (if file == id then count page pages' else 0)
          ≡ (if file == id then count page pages + count page placed else 0)
    owner : All (λ t. t.user_id ≡ a.user_id) tasks
    same_user : a'.user_id ≡ a.user_id
    overdrawn : IsOverdrawn a'

  overdrawn_nonzero : (a : User F) → IsOverdrawn a → (a.pages_number ==ℤ pos 0) ≡ false
  overdrawn_nonzero a h = ground arith

  record IsPlacement (settings : Settings) (file page : ℕ) (pages : List ℕ) (a : User F)
      (rest : List (User F)) : Type 0 where
    tasks : List Task
    pages' : List ℕ
    a' : User F
    returned : place_page settings file page pages (a ∷ rest) ≡ ok (tasks, pages', a' ∷ rest)
    taken : IsTaken file (page ∷ []) pages a tasks pages' a'

  place_page_overdrawn :
      (settings : Settings) (file page : ℕ) (pages : List ℕ) (a : User F) (rest : List (User F))
      → IsOverdrawn a
      → IsPlacement settings file page pages a rest
  unfolding place_page
  place_page_overdrawn settings file page pages a rest h =
      let a' = record a { pages_number = a.pages_number -ℤ pos 1 } in
      let load = overdrawn_nonzero a h in
      let below : IsOverdrawn a' = omega (arith, -ℤ_parts a.pages_number (pos 1)) in
      elim (Bool-cases (ltb (length pages) 50)) [
        | inl room ↦ record {
          tasks = [];
          pages' = pages ++ page ∷ [];
          a' = a';
          returned = ground (arith, load, room);
          taken = record {
            kept = λ id p. ground (arith, count-append p pages (page ∷ []));
            owner = tt;
            same_user = refl;
            overdrawn = below;
          };
        }
        | inr full ↦ record {
          tasks = new_task (annotation settings) file a.user_id pages ∷ [];
          pages' = page ∷ [];
          a' = a';
          returned = ground (arith, load, full);
          taken = record {
            kept = λ id p. ground arith;
            owner = (refl, tt);
            same_user = refl;
            overdrawn = below;
          };
        }
      ]

  record IsLoop (settings : Settings) (file : ℕ) (left pages : List ℕ) (a : User F)
      (rest : List (User F)) : Type 0 where
    tasks : List Task
    pages' : List ℕ
    a' : User F
    returned : place_pages settings file left pages (a ∷ rest) ≡ ok (tasks, pages', a' ∷ rest)
    taken : IsTaken file left pages a tasks pages' a'

  place_pages_overdrawn :
      (settings : Settings) (file : ℕ) (left pages : List ℕ) (a : User F) (rest : List (User F))
      → IsOverdrawn a
      → IsLoop settings file left pages a rest
  unfolding place_pages
  place_pages_overdrawn settings file [] pages a rest h = record {
    tasks = [];
    pages' = pages;
    a' = a;
    returned = refl;
    taken = record { kept = λ id page. ground arith; owner = tt; same_user = refl; overdrawn = h };
  }
  place_pages_overdrawn settings file (page ∷ left) pages a rest h =
      let s = place_page_overdrawn settings file page pages a rest h in
      let p = s.taken in
      let l = place_pages_overdrawn settings file left s.pages' s.a' rest p.overdrawn in
      let q = l.taken in
      record {
        tasks = s.tasks ++ l.tasks;
        pages' = l.pages';
        a' = l.a';
        returned = rw s.returned (rw l.returned);
        taken = record {
          kept =
              λ id x. ground (arith, covered-append id x s.tasks l.tasks, p.kept id x, q.kept id x);
          owner =
              All-append (λ t. t.user_id ≡ a.user_id) s.tasks l.tasks p.owner
                (owner_trans l.tasks p.same_user q.owner);
          same_user = q.same_user ∙ p.same_user;
          overdrawn = q.overdrawn;
        };
      }

  record IsTakenRest (settings : Settings) (file : ℕ) (pages : List ℕ) (a : User F)
      (rest : List (User F)) : Type 0 where
    tasks : List Task
    returned : place_rest settings file pages (a ∷ rest) ≡ ok tasks
    pages_covered :
        (id page : ℕ) → covered id page tasks ≡ (if file == id then count page pages else 0)
    owner : All (λ t. t.user_id ≡ a.user_id) tasks

  place_rest_one :
      (settings : Settings) (file : ℕ) (pages : List ℕ) (a : User F) (rest : List (User F))
      → IsTakenRest settings file pages a rest
  unfolding place_rest
  place_rest_one settings file [] a rest = record {
    tasks = [];
    returned = refl;
    pages_covered = λ id page. ground arith;
    owner = tt;
  }
  place_rest_one settings file (p ∷ ps) a rest =
      let cut = chunk_tasks-IsCut (annotation settings) file a.user_id (p ∷ ps) in
      record {
        tasks =
            (chunk_tasks (annotation settings) file a.user_id (tasks_number (p ∷ ps)) (p ∷ ps)).0;
        returned = refl;
        pages_covered = cut.pages_covered;
        owner = cut.owner;
      }

  record IsTakenItems (settings : Settings) (items : List FileItem) (a : User F)
      (rest : List (User F)) : Type 0 where
    tasks : List Task
    annotators' : List (User F)
    returned : place_items settings items (a ∷ rest) ≡ ok (tasks, annotators')
    all_for : IsAllFor a.user_id items tasks

  place_items_overdrawn :
      (settings : Settings) (items : List FileItem) (a : User F) (rest : List (User F))
      → IsOverdrawn a
      → IsTakenItems settings items a rest
  unfolding place_items place_item pop_spent
  place_items_overdrawn settings [] a rest h = record {
    tasks = [];
    annotators' = a ∷ rest;
    returned = refl;
    all_for = record { pages_covered = λ id page. refl; owned = tt };
  }
  place_items_overdrawn settings (item ∷ items) a rest h =
      let l = place_pages_overdrawn settings item.file_id (item_pages item) [] a rest h in
      let q = l.taken in
      let r = place_rest_one settings item.file_id l.pages' l.a' rest in
      let more = place_items_overdrawn settings items l.a' rest q.overdrawn in
      let here = l.tasks ++ r.tasks in
      record {
        tasks = here ++ more.tasks;
        annotators' = more.annotators';
        returned =
            rw (if-false _ _ (overdrawn_nonzero a h))
              (rw l.returned (rw r.returned (rw more.returned)));
        all_for = record {
          pages_covered = λ id page. ground (
            arith,
            covered-append id page here more.tasks,
            covered-append id page l.tasks r.tasks,
            q.kept id page,
            r.pages_covered id page,
            more.all_for.pages_covered id page,
          );
          owned =
              All-append (λ t. t.user_id ≡ a.user_id) here more.tasks
                (All-append (λ t. t.user_id ≡ a.user_id) l.tasks r.tasks q.owner
                  (owner_trans r.tasks q.same_user r.owner))
                (owner_trans more.tasks q.same_user more.all_for.owned);
        };
      }

  -- If the load of the first annotator is negative, then distribute_annotation_partial_files gives all
  -- pages of all files to that annotator, whatever the loads of the others are.
  pub distribute_annotation_partial_files-IsAllFor :
      (settings : Settings) (files : List FileItem) (a : User F) (rest : List (User F))
      → IsOverdrawn a
      → All IsConsistent files
      → (tasks : List Task) × (distribute_annotation_partial_files settings files (a ∷ rest)
          ≡ ok tasks)
        × IsAllFor a.user_id files tasks
  unfolding distribute_annotation_partial_files
  distribute_annotation_partial_files-IsAllFor settings files a rest h c =
      let f = with_pages-IsOffered files c in
      let r = place_items_overdrawn settings (with_pages files) a (with_load rest) h in
      (
        r.tasks,
        rw (overdrawn_nonzero a h) (rw r.returned),
        record {
          pages_covered = λ id page. r.all_for.pages_covered id page ∙ f.same_pages id page;
          owned = r.all_for.owned;
        },
      )
