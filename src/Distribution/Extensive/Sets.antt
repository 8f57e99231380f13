-- ===== src/Distribution/Extensive/Sets.antt =====
-- Sorted sets of pages, and how many pages are left.
use badgerdoc.Base.{
  ℕ, zero, suc, ◌+◌, ◌≤◌, ◌<◌, ◌≡◌, refl, ◌∙◌, ap, Bool, true, false, not, ◌&&◌, List, [], ◌∷◌,
  if◌then◌else◌, ◌==◌, ==_iff, leb, count, contains, contains-count, count-filter_by, filter_by,
  length, take, Bool-cases, inl, inr, arith,
}
use badgerdoc.Distribution.Extensive.{insert_page, sorted_set, sorted_difference}

abbrev pub once : Bool → ℕ
once b = if b then 1 else 0

count-insert_page :
    (p x : ℕ) (ys : List ℕ) → count p (insert_page x ys) ≡ once (x == p) + count p ys
count-insert_page p x [] = refl
count-insert_page p x (y ∷ ys) = elim (Bool-cases (leb x y)) [
  | inl e ↦ rw e refl
  | inr e ↦ rw e (omega (arith, count-insert_page p x ys))
]

contains-same : (p x : ℕ) (xs : List ℕ) → (x == p) ≡ true → contains x xs ≡ contains p xs
contains-same p x xs e = ground (arith, e)

pub count-sorted_set : (p : ℕ) (xs : List ℕ) → count p (sorted_set xs) ≡ once (contains p xs)
count-sorted_set p [] = refl
count-sorted_set p (x ∷ xs) = elim (Bool-cases (contains x xs)) [
  | inl e ↦ rw e (ground (arith, e, count-sorted_set p xs, contains-same p x xs))
  | inr e ↦ rw e (
      count-insert_page p x (sorted_set xs)
      ∙ ground (arith, e, count-sorted_set p xs, contains-same p x xs))
]

length-insert_page : (x : ℕ) (ys : List ℕ) → length (insert_page x ys) ≡ suc (length ys)
length-insert_page x [] = refl
length-insert_page x (y ∷ ys) = elim (Bool-cases (leb x y)) [
  | inl e ↦ rw e refl
  | inr e ↦ rw e (ap suc (length-insert_page x ys))
]

length-sorted_set : (xs : List ℕ) → length (sorted_set xs) ≤ length xs
length-sorted_set [] = omega arith
length-sorted_set (x ∷ xs) = elim (Bool-cases (contains x xs)) [
  | inl e ↦ rw e (omega (arith, length-sorted_set xs))
  | inr e ↦ rw e (omega (arith, length-sorted_set xs, length-insert_page x (sorted_set xs)))
]

length-filter_by : (keep : ℕ → Bool) (xs : List ℕ) → length (filter_by keep xs) ≤ length xs
length-filter_by keep [] = omega arith
length-filter_by keep (x ∷ xs) = elim (Bool-cases (keep x)) [
  | inl e ↦ rw e (omega (arith, length-filter_by keep xs))
  | inr e ↦ rw e (omega (arith, length-filter_by keep xs))
]

kept_other : (p x : ℕ) (keep : ℕ → Bool) → keep x ≡ true → keep p ≡ false → (x == p) ≡ false
kept_other p x keep e out = elim (Bool-cases (x == p)) [
  | inl q ↦ absurd (ground (arith, ap keep ((==_iff x p).0 q), e, out))
  | inr q ↦ q
]

-- A list that loses a member is shorter.
shorter :
    (p : ℕ) (keep : ℕ → Bool) (xs : List ℕ)
    → contains p xs ≡ true
    → keep p ≡ false
    → length (filter_by keep xs) < length xs
shorter p keep [] h out = absurd (ground (arith, h))
shorter p keep (x ∷ xs) h out = elim (Bool-cases (keep x)) [
  | inl e ↦
      rw e (omega (arith, shorter p keep xs (ground (arith, h, kept_other p x keep e out)) out))
  | inr e ↦ rw e (omega (arith, length-filter_by keep xs))
]

pub count-sorted_difference :
    (p : ℕ) (pages given : List ℕ)
    → count p (sorted_difference pages given) ≡ once (contains p pages && not (contains p given))
count-sorted_difference p pages given =
    count-sorted_set p (filter_by (λ page. not (contains page given)) pages)
    ∙ ground (
      arith,
      contains-count p (filter_by (λ page. not (contains page given)) pages),
      count-filter_by p (λ page. not (contains page given)) pages,
      contains-count p pages,
    )

pub length-sorted_difference :
    (p : ℕ) (pages given : List ℕ)
    → contains p pages ≡ true
    → contains p given ≡ true
    → length (sorted_difference pages given) < length pages
length-sorted_difference p pages given h g = omega (
  arith,
  length-sorted_set (filter_by (λ page. not (contains page given)) pages),
  shorter p (λ page. not (contains page given)) pages h (ap not g),
)

pub count-take : (p n : ℕ) (xs : List ℕ) → count p (take n xs) ≤ count p xs
count-take p zero xs = omega arith
count-take p (suc n) [] = omega arith
count-take p (suc n) (x ∷ xs) = omega (arith, count-take p n xs)

pub contains-sorted_set : (p : ℕ) (xs : List ℕ) → contains p (sorted_set xs) ≡ contains p xs
contains-sorted_set p xs = ground (arith, contains-count p (sorted_set xs), count-sorted_set p xs)
