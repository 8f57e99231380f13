-- ===== src/Distribution/Extensive/Laws.antt =====
-- distribute_tasks_extensively ends, and what its tasks are.
use badgerdoc.Base.{
  ℕ, zero, suc, ◌+◌, ◌*◌, ◌≤◌, ◌<◌, ◌≡◌, refl, Bool, true, false, ◌&&◌, ℤ, pos, negsuc, List, [],
  ◌∷◌, ◌==◌, ltb, contains, length, All, Bool-cases, inl, inr, Call, ok, raises, index_error, ◌>>=◌,
  arith,
}
use badgerdoc.Distribution.Types.{
  FileItem, User, Settings, Task, covered, covered_by, IsSized, total,
}
use badgerdoc.Distribution.Load.{FloatOps, calculate_users_load}
use badgerdoc.Distribution.Extensive.{
  seen_pages, pages_of_file, insert_file, sort_files, Annotator, insert_annotator, add_able,
  able_users, Spread, turn, hand_out, cover_file, cover_files, distribute_tasks_extensively,
}
use badgerdoc.Distribution.Extensive.Sets.{once, count-sorted_difference}
use badgerdoc.Distribution.Extensive.Turn.{IsAble, IsKnown, IsTurned, give_pages-IsTurned}

-- The call returns a value with the property, or raises IndexError.
pub data Ends {A : Type 0} (Q : A → Type 0) : Call A → Type 0 where
  returned : {a : A} → Q a → Ends Q (ok a)
  no_annotator : Ends Q (raises index_error)

>>=-Ends :
    {A B : Type 0} {Q : A → Type 0} {R : B → Type 0} {call : Call A} (next : A → Call B)
    → Ends Q call
    → ((a : A) → Q a → Ends R (next a))
    → Ends R (call >>= next)
>>=-Ends next (returned h) k = k _ h
>>=-Ends next no_annotator k = no_annotator

weaken :
    {A : Type 0} {Q R : A → Type 0} {call : Call A}
    → ((a : A) → Q a → R a)
    → Ends Q call
    → Ends R call
weaken f (returned h) = returned (f _ h)
weaken f no_annotator = no_annotator

-- Of each file's pages, what is there once for each of these sets of pages.
abbrev pub offers : ℕ → ℕ → FileItem → ℕ
offers id page file = once (file.file_id == id && contains page (pages_of_file file))

record IsHanded {F : Type 0} (file_id times : ℕ) (pages : List ℕ) (s s' : Spread F) : Type 0 where
  known : IsKnown s'
  moved :
      (id page : ℕ)
      → covered id page s'.tasks
        ≡ covered id page s.tasks + times * once (file_id == id && contains page pages)

module _ {F : Type 0} (settings : Settings) (file_id : ℕ) where
  turn-IsTurned :
      (pages : List ℕ) (annotators : List Annotator) (s : Spread F)
      → s.annotators ≡ annotators
      → 0 < length pages
      → IsKnown s
      → Ends (λ r. IsTurned file_id pages s r.0 r.1) (turn settings file_id pages annotators s)
  turn-IsTurned pages [] s same nonempty k = no_annotator
  turn-IsTurned pages (a ∷ rest) s same nonempty k = returned (
      give_pages-IsTurned settings file_id pages _ a rest s same nonempty
        (λ p. count-sorted_difference p pages (seen_pages a.user_id file_id s.seen)) k)

  hand_out-IsHanded :
      (fuel : ℕ) (pages : List ℕ) (s : Spread F)
      → length pages + length s.annotators < fuel
      → IsKnown s
      → Ends (IsHanded file_id 1 pages s) (hand_out settings file_id fuel pages s)
  unfolding hand_out
  hand_out-IsHanded zero pages s enough k = absurd (omega arith)
  hand_out-IsHanded (suc fuel) [] s enough k =
      returned (record { known = k; moved = λ id page. ground arith })
  hand_out-IsHanded (suc fuel) (p ∷ pages) s enough k =
      >>=-Ends _ (turn-IsTurned (p ∷ pages) s.annotators s refl (omega arith) k) (λ r t.
        weaken
          (λ s' h. record {
            known = h.known;
            moved = λ id page. omega (arith, h.moved id page, t.moved id page);
          })
          (hand_out-IsHanded fuel r.0 r.1 (omega (arith, t.fewer, enough)) t.known))

  cover_file-IsHanded :
      (coverage : ℕ) (pages : List ℕ) (s : Spread F)
      → IsKnown s
      → Ends (IsHanded file_id coverage pages s) (cover_file settings file_id coverage pages s)
  unfolding cover_file
  cover_file-IsHanded zero pages s k =
      returned (record { known = k; moved = λ id page. omega arith })
  cover_file-IsHanded (suc coverage) pages s k =
      >>=-Ends _
        (hand_out-IsHanded (suc (length pages + length s.annotators)) pages s (omega arith) k)
        (λ s' h.
          weaken
            (λ s'' g. record {
              known = g.known;
              moved = λ id page. grind (arith, g.moved id page, h.moved id page);
            })
            (cover_file-IsHanded coverage pages s' h.known))

insert_annotator-IsAble :
    (a : Annotator) (annotators : List Annotator)
    → IsAble a
    → All IsAble annotators
    → All IsAble (insert_annotator a annotators)
insert_annotator-IsAble a [] h g = (h, tt)
insert_annotator-IsAble a (b ∷ annotators) h g = elim (Bool-cases (ltb a.load b.load)) [
  | inl e ↦ rw e (g.0, insert_annotator-IsAble a annotators h g.1)
  | inr e ↦ rw e (h, g)
]

add_able-IsAble :
    {F : Type 0} (u : User F) (load : ℤ) (annotators : List Annotator)
    → All IsAble annotators
    → All IsAble (add_able u load annotators)
add_able-IsAble u (pos zero) annotators g = g
add_able-IsAble u (pos (suc n)) annotators g = insert_annotator-IsAble _ annotators (omega arith) g
add_able-IsAble u (negsuc n) annotators g = g

able_users-IsAble : {F : Type 0} (users : List (User F)) → All IsAble (able_users users)
able_users-IsAble [] = tt
able_users-IsAble (u ∷ users) =
    add_able-IsAble u u.pages_number (able_users users) (able_users-IsAble users)

record IsSpread {F : Type 0} (coverage : ℕ) (files : List FileItem) (s s' : Spread F) : Type 0 where
  known : IsKnown s'
  moved :
      (id page : ℕ)
      → covered id page s'.tasks ≡ covered id page s.tasks + coverage * total (offers id page) files

cover_files-IsSpread :
    {F : Type 0} (settings : Settings) (coverage : ℕ) (files : List FileItem) (s : Spread F)
    → IsKnown s
    → Ends (IsSpread coverage files s) (cover_files settings coverage files s)
unfolding cover_files
cover_files-IsSpread settings coverage [] s k =
    returned (record { known = k; moved = λ id page. grind arith })
cover_files-IsSpread settings coverage (file ∷ files) s k =
    >>=-Ends _
      (cover_file-IsHanded settings file.file_id coverage (pages_of_file file) _
        (record { seen = k.seen; sized = k.sized; able = able_users-IsAble s.users }))
      (λ s' h.
        weaken
          (λ s'' g. record {
            known = g.known;
            moved = λ id page. grind (arith, g.moved id page, h.moved id page);
          })
          (cover_files-IsSpread settings coverage files s' h.known))

total-insert_file :
    (w : FileItem → ℕ) (file : FileItem) (files : List FileItem)
    → total w (insert_file file files) ≡ w file + total w files
total-insert_file w file [] = refl
total-insert_file w file (f ∷ files) = elim (Bool-cases (ltb f.pages_number file.pages_number)) [
  | inl e ↦ rw e (omega (arith, total-insert_file w file files))
  | inr e ↦ rw e refl
]

total-sort_files :
    (w : FileItem → ℕ) (files : List FileItem) → total w (sort_files files) ≡ total w files
total-sort_files w [] = refl
total-sort_files w (f ∷ files) =
    omega (arith, total-insert_file w f (sort_files files), total-sort_files w files)

-- Each page of each file is in as many tasks as the coverage asks for, all of different users, and every
-- task has 1 to 50 pages.
pub record IsExtensive (coverage : ℕ) (files : List FileItem) (tasks : List Task) : Type 0 where
  pub pages_covered :
      (id page : ℕ) → covered id page tasks ≡ coverage * total (offers id page) files
  pub no_repeats : (user id page : ℕ) → covered_by user id page tasks ≤ 1
  pub sized : All IsSized tasks

once-le : (b : Bool) → once b ≤ 1
once-le true = omega arith
once-le false = omega arith

module _ (ops : FloatOps) where
  open ops use {Float}

  -- If calculate_users_load returns, then distribute_tasks_extensively ends: it raises IndexError, or its
  -- tasks hold each page of each file exactly as often as the coverage says, no user has a page twice, and
  -- every task has 1 to 50 pages.
  pub distribute_tasks_extensively-IsExtensive :
      (fuel : ℕ) (files : List FileItem) (users loaded : List (User Float)) (settings : Settings)
      (coverage : ℕ)
      → calculate_users_load ops fuel files users coverage ≡ ok loaded
      → Ends
          (IsExtensive coverage files)
          (distribute_tasks_extensively ops fuel files users settings coverage)
  unfolding distribute_tasks_extensively
  distribute_tasks_extensively-IsExtensive fuel files users loaded settings coverage calculated =
      rw calculated (
        >>=-Ends _
          (cover_files-IsSpread settings coverage (sort_files files) _
            (record { seen = λ user id page. refl; sized = tt; able = tt }))
          (λ s h. returned (record {
            pages_covered =
                λ id page. grind (arith, h.moved id page, total-sort_files (offers id page) files);
            no_repeats = λ user id page. omega (
              arith,
              h.known.seen user id page,
              once-le (contains page (seen_pages user id s.seen)),
            );
            sized = h.known.sized;
          })))
