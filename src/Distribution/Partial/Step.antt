-- ===== src/Distribution/Partial/Step.antt =====
-- One round of the loop over the pages: it does not raise while the loads cover the pages, and no
-- page is lost between the finished tasks and the pages that are held for the next one.
use badgerdoc.Base.{
  ℕ, ◌+◌, ◌≤◌, ◌<◌, ◌≡◌, ◌⊎◌, inl, inr, ℤ, pos, pos_part, ◌-ℤ◌, -ℤ_parts, ◌≤ℤ◌, ◌==ℤ◌, ok, List, [],
  ◌∷◌, ◌++◌, if◌then◌else◌, ◌==◌, ltb, length, length-append, count, count-append, All, arith,
  Bool-cases, true, false,
}
use badgerdoc.Distribution.Types.{
  max_pages, User, Settings, Task, new_task, covered, workload, IsSized,
}
use badgerdoc.Distribution.Loads.{IsPositive, loads, load_of}
use badgerdoc.Distribution.Partial.{annotation, place_page}

-- Taking one page off a load that is not used up.
pub spend_one :
    (x : ℤ)
    → pos 0 ≤ℤ x
    → (x ==ℤ pos 0) ≡ false
    → (pos_part (x -ℤ pos 1) + 1 ≡ pos_part x) × (pos 0 ≤ℤ (x -ℤ pos 1))
spend_one x h e = ground (arith, -ℤ_parts x (pos 1))

spend_positive : (x : ℤ) → pos 1 ≤ℤ x → (x ==ℤ pos 0) ≡ false
spend_positive x h = ground arith

module _ {F : Type 0} where
  -- Only the first annotator may have used up the load, and then pages are held for him.
  abbrev pub IsReady : List ℕ → List (User F) → Type 0
  IsReady pages [] = ⊥
  IsReady pages (a ∷ rest) =
      (pos 0 ≤ℤ a.pages_number)
      × IsPositive rest
      × (length pages ≤ max_pages)
      × ((0 < length pages) ⊎ (pos 1 ≤ℤ a.pages_number))

  -- The pages that are held, as work of the first annotator.
  abbrev pub held : ℕ → List ℕ → List (User F) → ℕ
  held id pages [] = 0
  held id pages (a ∷ rest) = if a.user_id == id then length pages else 0

  -- Between two states of the loop `number` pages, those of `placed`, have been handed out.
  pub record IsPlaced (file : ℕ) (placed pages : List ℕ) (annotators : List (User F))
      (tasks : List Task) (pages' : List ℕ) (annotators' : List (User F)) : Type 0 where
    pub pages_kept :
        (id page : ℕ)
        → covered id page tasks + (if file == id then count page pages' else 0)
          ≡ (if file == id then count page pages + count page placed else 0)
    pub shares :
        (id : ℕ)
        → workload id tasks + held id pages' annotators' + load_of id annotators'
          ≡ held id pages annotators + load_of id annotators
    pub fewer : loads annotators' + length placed ≡ loads annotators
    pub sized : All IsSized tasks
    pub ready : IsReady pages' annotators'

  abbrev spend : User F → User F
  spend a = record a { pages_number = a.pages_number -ℤ pos 1 }

  pub record IsPlacement (settings : Settings) (file page : ℕ) (pages : List ℕ)
      (annotators : List (User F)) : Type 0 where
    pub tasks : List Task
    pub pages' : List ℕ
    pub annotators' : List (User F)
    pub returned : place_page settings file page pages annotators ≡ ok (tasks, pages', annotators')
    pub placed : IsPlaced file (page ∷ []) pages annotators tasks pages' annotators'

  module _ (settings : Settings) (file page : ℕ) (pages : List ℕ) where
    -- The first annotator has load and the task has room.
    step_room :
        (a : User F) (rest : List (User F))
        → IsReady pages (a ∷ rest)
        → (a.pages_number ==ℤ pos 0) ≡ false
        → ltb (length pages) 50 ≡ true
        → IsPlacement settings file page pages (a ∷ rest)
    unfolding place_page
    step_room a rest r load room = record {
      tasks = [];
      pages' = pages ++ page ∷ [];
      annotators' = spend a ∷ rest;
      returned = ground (arith, load, room);
      placed = record {
        pages_kept = λ id p. ground (arith, count-append p pages (page ∷ []));
        shares = λ id.
            ground (arith, length-append pages (page ∷ []), spend_one a.pages_number r.0 load);
        fewer = omega (arith, spend_one a.pages_number r.0 load);
        sized = tt;
        ready = (
          (spend_one a.pages_number r.0 load).1,
          r.1,
          ground (arith, room, length-append pages (page ∷ [])),
          inl (omega (arith, length-append pages (page ∷ []))),
        );
      };
    }

    -- The first annotator has load and the task is full.
    step_full :
        (a : User F) (rest : List (User F))
        → IsReady pages (a ∷ rest)
        → (a.pages_number ==ℤ pos 0) ≡ false
        → ltb (length pages) 50 ≡ false
        → IsPlacement settings file page pages (a ∷ rest)
    unfolding place_page
    step_full a rest r load full = record {
      tasks = new_task (annotation settings) file a.user_id pages ∷ [];
      pages' = page ∷ [];
      annotators' = spend a ∷ rest;
      returned = ground (arith, load, full);
      placed = record {
        pages_kept = λ id p. ground arith;
        shares = λ id. ground (arith, spend_one a.pages_number r.0 load);
        fewer = omega (arith, spend_one a.pages_number r.0 load);
        sized = ((ground (arith, full), r.2), tt);
        ready = ((spend_one a.pages_number r.0 load).1, r.1, omega arith, inl (omega arith));
      };
    }

    -- The load of the first annotator is used up: his pages become a task, and the next one starts.
    step_spent :
        (a b : User F) (rest : List (User F))
        → IsReady pages (a ∷ b ∷ rest)
        → (a.pages_number ==ℤ pos 0) ≡ true
        → IsPlacement settings file page pages (a ∷ b ∷ rest)
    unfolding place_page
    step_spent a b rest r spent =
        let next =
          spend_one b.pages_number (omega (arith, r.1)) (spend_positive b.pages_number r.1.0) in
        record {
          tasks = new_task (annotation settings) file a.user_id pages ∷ [];
          pages' = page ∷ [];
          annotators' = spend b ∷ rest;
          returned = ground (arith, spent);
          placed = record {
            pages_kept = λ id p. ground arith;
            shares = λ id. ground (arith, next, spent, r.0);
            fewer = ground (arith, next, spent, r.0);
            sized = ((ground (arith, spent, r.3, r.0), r.2), tt);
            ready = (next.1, r.1.1, omega arith, inl (omega arith));
          };
        }

    step_spent_any :
        (a : User F) (rest : List (User F))
        → IsReady pages (a ∷ rest)
        → 0 < loads (a ∷ rest)
        → (a.pages_number ==ℤ pos 0) ≡ true
        → IsPlacement settings file page pages (a ∷ rest)
    step_spent_any a [] r h spent = absurd (ground (arith, spent))
    step_spent_any a (b ∷ rest) r h spent = step_spent a b rest r spent

    -- A round returns, as long as the loads hold one more page.
    pub place_page_total :
        (annotators : List (User F))
        → IsReady pages annotators
        → 0 < loads annotators
        → IsPlacement settings file page pages annotators
    place_page_total [] r h = absurd r
    place_page_total (a ∷ rest) r h = elim (Bool-cases (a.pages_number ==ℤ pos 0)) [
      | inl spent ↦ step_spent_any a rest r h spent
      | inr load ↦ elim (Bool-cases (ltb (length pages) 50)) [
        | inl room ↦ step_room a rest r load room
        | inr full ↦ step_full a rest r load full
      ]
    ]
