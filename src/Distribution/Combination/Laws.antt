-- ===== src/Distribution/Combination/Laws.antt =====
-- find_pages_combination finds a combination exactly when there is one.
use mathlib.Core.List.{Sublistᴰ}
use badgerdoc.Base.{
  ℕ, ◌+◌, ◌<◌, ◌⊎◌, inl, inr, ◌≡◌, refl, sym, ap, ◌∙◌, ◌≢◌, ℤ, pos, Option, none, some, List, [],
  ◌∷◌, ◌++◌, append_assoc, arith, sum, pos_part, neg_part, sum-append,
}
use badgerdoc.Distribution.Combination.{try_combination, loop_combinations, find_pages_combination}

-- A combination: some of the page numbers, in their order, with the sum that is asked for.
pub record IsCombination (files_pages : List ℕ) (user_pages : ℤ) (found : List ℕ) : Type 0 where
  pub chosen : Sublistᴰ found files_pages
  pub total : pos (sum found) ≡ user_pages

nil-sublist : (xs : List ℕ) → Sublistᴰ [] xs
nil-sublist [] = Sublistᴰ.slnil
nil-sublist (x ∷ xs) = Sublistᴰ.cons (nil-sublist xs)

-- What a result of the loop adds to the combination it started from.
record Extends (files_pages combinations : List ℕ) (user_pages : ℤ) (found : List ℕ) : Type 0 where
  added : List ℕ
  split : found ≡ combinations ++ added
  chosen : Sublistᴰ added files_pages
  total : pos (sum found) ≡ user_pages

Extends-skip :
    {x : ℕ} {xs c found : List ℕ} {t : ℤ} → Extends xs c t found → Extends (x ∷ xs) c t found
Extends-skip e = record {
  added = e.added;
  split = e.split;
  chosen = Sublistᴰ.cons e.chosen;
  total = e.total;
}

Extends-take :
    {x : ℕ} {xs c found : List ℕ} {t : ℤ}
    → Extends xs (c ++ x ∷ []) t found
    → Extends (x ∷ xs) c t found
Extends-take {x} {c = c} e = record {
  added = x ∷ e.added;
  split = e.split ∙ append_assoc c (x ∷ []) e.added;
  chosen = Sublistᴰ.cons-cons refl e.chosen;
  total = e.total;
}

try_cases :
    (t : ℤ) (c : List ℕ) (s : ℕ) (loop : Option (List ℕ)) {found : List ℕ}
    → try_combination t c s loop ≡ some found
    → (pos s ≡ t) × (found ≡ c) ⊎ (loop ≡ some found)
unfolding try_combination
try_cases t c s loop h = ground arith

try_none :
    (t : ℤ) (c : List ℕ) (s : ℕ) (loop : Option (List ℕ))
    → try_combination t c s loop ≡ none
    → (pos s ≢ t) × ((pos_part t < s + neg_part t) ⊎ (loop ≡ none))
unfolding try_combination
try_none t c s loop h = ground arith

-- The loop body: the deeper search comes first, then the rest of the loop.
loop_cases :
    (t : ℤ) (c : List ℕ) (s x : ℕ) (xs : List ℕ) {found : List ℕ}
    → loop_combinations t c s (x ∷ xs) ≡ some found
    → (try_combination t (c ++ x ∷ []) (s + x) (loop_combinations t (c ++ x ∷ []) (s + x) xs)
        ≡ some found)
      ⊎ (loop_combinations t c s xs ≡ some found)
unfolding loop_combinations
loop_cases t c s x xs h = ground arith

loop_none :
    (t : ℤ) (c : List ℕ) (s x : ℕ) (xs : List ℕ)
    → loop_combinations t c s (x ∷ xs) ≡ none
    → (try_combination t (c ++ x ∷ []) (s + x) (loop_combinations t (c ++ x ∷ []) (s + x) xs)
        ≡ none)
      × (loop_combinations t c s xs ≡ none)
unfolding loop_combinations
loop_none t c s x xs h = ground arith

sum_snoc : (c : List ℕ) (x s : ℕ) → s ≡ sum c → s + x ≡ sum (c ++ x ∷ [])
sum_snoc c x s e = omega (arith, sum-append c (x ∷ []))

loop_sound :
    (t : ℤ) (c : List ℕ) (s : ℕ) (xs : List ℕ) {found : List ℕ}
    → s ≡ sum c
    → loop_combinations t c s xs ≡ some found
    → Extends xs c t found
unfolding loop_combinations
loop_sound t c s [] e h = cc
loop_sound t c s (x ∷ xs) e h = elim (loop_cases t c s x xs h) [
  | inr later ↦ Extends-skip (loop_sound t c s xs e later)
  | inl tried ↦ elim (try_cases t (c ++ x ∷ []) (s + x) _ tried) [
    | inr deeper ↦ Extends-take (loop_sound t (c ++ x ∷ []) (s + x) xs (sum_snoc c x s e) deeper)
    | inl (total, same) ↦ record {
      added = x ∷ [];
      split = same;
      chosen = Sublistᴰ.cons-cons refl (nil-sublist xs);
      total = ap (λ l. pos (sum l)) same ∙ ap pos (sym (sum_snoc c x s e)) ∙ total;
    }
  ]
]

loop_complete :
    (t : ℤ) (c : List ℕ) (s : ℕ) {sub xs : List ℕ}
    → loop_combinations t c s xs ≡ none
    → Sublistᴰ sub xs
    → pos (s + sum sub) ≡ t
    → sub ≡ []
loop_complete t c s h Sublistᴰ.slnil e = refl
loop_complete t c s h (Sublistᴰ.cons {a} {l₂ = xs} chosen) e =
    loop_complete t c s (loop_none t c s a xs h).1 chosen e
loop_complete t c s h (Sublistᴰ.cons-cons {a} {b} {l₁ = sub} {l₂ = xs} same chosen) e =
    let (differs, rest) = try_none t (c ++ b ∷ []) (s + b) _ (loop_none t c s b xs h).0 in
    elim rest [
      | inl over ↦ absurd (omega (arith, ap pos_part e, ap neg_part e))
      | inr stopped ↦
          let total : pos (s + b + sum sub) ≡ t = ap pos (omega arith) ∙ e in
          let empty = loop_complete t (c ++ b ∷ []) (s + b) stopped chosen total in
          absurd (differs (ap pos (omega (arith, ap sum empty)) ∙ total))
    ]

-- If find_pages_combination leaves with a combination, it is some of the page numbers, in their
-- order, and their sum is the load of the user.
pub find_pages_combination_sound :
    (files_pages : List ℕ) (user_pages : ℤ) {found : List ℕ}
    → find_pages_combination files_pages user_pages ≡ some found
    → IsCombination files_pages user_pages found
unfolding find_pages_combination
find_pages_combination_sound xs t {found} h = elim (try_cases t [] 0 _ h) [
  | inl (total, same) ↦ record { chosen = rw same (nil-sublist xs); total = rw same total }
  | inr looped ↦
      let e = loop_sound t [] 0 xs refl looped in
      record { chosen = rw e.split e.chosen; total = e.total }
]

-- If it returns without one, no choice of the page numbers sums to the load of the user: the cut at
-- a sum that is too large loses nothing.
pub find_pages_combination_complete :
    (files_pages : List ℕ) (user_pages : ℤ)
    → find_pages_combination files_pages user_pages ≡ none
    → (found : List ℕ) → ¬ IsCombination files_pages user_pages found
unfolding find_pages_combination
find_pages_combination_complete xs t h found combination =
    let (differs, rest) = try_none t [] 0 _ h in
    elim rest [
      | inl over ↦
          absurd (omega (arith, ap pos_part combination.total, ap neg_part combination.total))
      | inr stopped ↦
          let total : pos (0 + sum found) ≡ t = ap pos (omega arith) ∙ combination.total in
          let empty = loop_complete t [] 0 stopped combination.chosen total in
          differs (ap (λ l. pos (sum l)) (sym empty) ∙ combination.total)
    ]
