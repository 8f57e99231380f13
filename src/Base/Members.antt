-- ===== src/Base/Members.antt =====
-- Lists as Python uses them: `in`, comprehensions, ranges, sums, and how often an item occurs.
use Prim.Native.Nat.{ℕ, zero, suc, ◌+◌}
use mathlib.Core.Path.{◌≡◌, refl, ap}
use mathlib.Core.Logic.{inl, inr}
use mathlib.Core.Bool.{Bool, true, false, ◌||◌}
use mathlib.Core.List.{List, [], ◌∷◌, ◌++◌}
use native.Mathlib.Omega.{arith}
use badgerdoc.Base.Tests.{◌==◌, if◌then◌else◌, leb, Bool-cases}
use badgerdoc.Base.Lists.{length}

-- `x in xs`
abbrev pub contains : ℕ → List ℕ → Bool
contains x [] = false
contains x (y ∷ ys) = if y == x then true else contains x ys

-- How often `x` occurs in `xs`.
abbrev pub count : ℕ → List ℕ → ℕ
count x [] = 0
count x (y ∷ ys) = (if y == x then 1 else 0) + count x ys

-- `list(range(first, first + number))`
abbrev pub range_from : ℕ → ℕ → List ℕ
range_from first zero = []
range_from first (suc number) = first ∷ range_from (suc first) number

abbrev pub sum : List ℕ → ℕ
sum [] = 0
sum (x ∷ xs) = x + sum xs

module _ {ℓ} {A : Type ℓ} where
  -- `[x for x in xs if keep(x)]`
  abbrev pub filter_by : (A → Bool) → List A → List A
  filter_by keep [] = []
  filter_by keep (x ∷ xs) = let rest = filter_by keep xs in if keep x then x ∷ rest else rest

  abbrev pub any_by : (A → Bool) → List A → Bool
  any_by test [] = false
  any_by test (x ∷ xs) = if test x then true else any_by test xs

  abbrev pub All {κ} : (A → Type κ) → List A → Type κ
  All P [] = Unit
  All P (x ∷ xs) = P x × All P xs

module _ {ℓ κ} {A : Type ℓ} (P : A → Type κ) where
  pub All-append : (xs ys : List A) → All P xs → All P ys → All P (xs ++ ys)
  All-append [] ys h k = k
  All-append (x ∷ xs) ys h k = (h.0, All-append xs ys h.1 k)

pub count-append : (x : ℕ) (xs ys : List ℕ) → count x (xs ++ ys) ≡ count x xs + count x ys
count-append x [] ys = omega arith
count-append x (y ∷ xs) ys = omega (arith, count-append x xs ys)

pub sum-append : (xs ys : List ℕ) → sum (xs ++ ys) ≡ sum xs + sum ys
sum-append [] ys = omega arith
sum-append (x ∷ xs) ys = omega (arith, sum-append xs ys)

pub length-range_from : (first n : ℕ) → length (range_from first n) ≡ n
length-range_from first zero = refl
length-range_from first (suc n) = ap suc (length-range_from (suc first) n)

-- `contains` is a positive count.
pub contains-count : (x : ℕ) (xs : List ℕ) → contains x xs ≡ leb 1 (count x xs)
contains-count x [] = refl
contains-count x (y ∷ ys) = ground (arith, contains-count x ys)

-- A range holds each of its numbers once.
pub count-range_from :
    (x first n : ℕ)
    → count x (range_from first n) ≡ (if leb first x then if leb (first + n) x then 0 else 1 else 0)
count-range_from x first zero = ground arith
count-range_from x first (suc n) = ground (arith, count-range_from x (suc first) n)

-- A comprehension keeps an item with all its occurrences, or drops it.
pub count-filter_by :
    (x : ℕ) (keep : ℕ → Bool) (xs : List ℕ)
    → count x (filter_by keep xs) ≡ (if keep x then count x xs else 0)
count-filter_by x keep [] = ground arith
count-filter_by x keep (y ∷ ys) = elim (Bool-cases (keep x)) [
  | inl kept ↦ ground (arith, count-filter_by x keep ys, kept)
  | inr out ↦ ground (arith, count-filter_by x keep ys, out)
]

-- Equal numbers are in the same lists.
pub contains-equal : (k p : ℕ) (ps : List ℕ) → (k == p) ≡ true → contains k ps ≡ contains p ps
contains-equal k p [] h = refl
contains-equal k p (q ∷ ps) h = ground (arith, contains-equal k p ps)

pub contains-append :
    (p : ℕ) (xs ys : List ℕ) → contains p (xs ++ ys) ≡ contains p xs || contains p ys
contains-append p [] ys = ground arith
contains-append p (x ∷ xs) ys = ground (arith, contains-append p xs ys)
