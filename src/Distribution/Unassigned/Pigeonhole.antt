-- ===== src/Distribution/Unassigned/Pigeonhole.antt =====
-- As many distinct pages of 1..n as there are leave none out. This is what lets
-- find_unassigned_files compare two lengths.
use badgerdoc.Base.{
  ℕ, zero, suc, ◌+◌, ◌≤◌, ◌<◌, ◌≡◌, refl, List, [], ◌∷◌, ◌==◌, if◌then◌else◌, count, not,
  count-filter_by, filter_by, length, arith, inl, inr, Bool-cases,
}

-- Each page is recorded at most once, and is one of the pages 1..number.
pub record IsRecorded (distributed : List ℕ) (number : ℕ) : Type 0 where
  pub once : (page : ℕ) → count page distributed ≤ 1
  pub within : (page : ℕ) → 0 < count page distributed → (0 < page) × (page ≤ number)

abbrev without : ℕ → List ℕ → List ℕ
without n = filter_by (λ page. not (page == n))

length-without : (n : ℕ) (xs : List ℕ) → length (without n xs) + count n xs ≡ length xs
length-without n [] = refl
length-without n (x ∷ xs) = ground (arith, length-without n xs)

count-without :
    (p n : ℕ) (xs : List ℕ) → count p (without n xs) ≡ (if p == n then 0 else count p xs)
count-without p n xs = ground (arith, count-filter_by p (λ page. not (page == n)) xs)

without-IsRecorded : (n : ℕ) (d : List ℕ) → IsRecorded d (suc n) → IsRecorded (without (suc n) d) n
without-IsRecorded n d r = record {
  once = λ p. ground (arith, count-without p (suc n) d, r.once p);
  within = λ p h. ground (arith, count-without p (suc n) d, r.within p);
}

none-IsRecorded : (d : List ℕ) → IsRecorded d 0 → length d ≡ 0
none-IsRecorded [] r = refl
none-IsRecorded (x ∷ d) r = absurd (ground (arith, r.within x))

length-le : (n : ℕ) (d : List ℕ) → IsRecorded d n → length d ≤ n
length-le zero d r = omega (arith, none-IsRecorded d r)
length-le (suc n) d r = omega (
  arith,
  length-le n (without (suc n) d) (without-IsRecorded n d r),
  length-without (suc n) d,
  r.once (suc n),
)

-- A page that is not recorded leaves the record short.
pub length-lt_of_missing :
    (n : ℕ) (d : List ℕ) (p : ℕ) → IsRecorded d n → 0 < p → p ≤ n → count p d ≡ 0 → length d < n
length-lt_of_missing zero d p r h k e = absurd (omega arith)
length-lt_of_missing (suc n) d p r h k e = elim (Bool-cases (p == suc n)) [
  | inl last ↦ ground (
    arith,
    last,
    length-le n (without (suc n) d) (without-IsRecorded n d r),
    length-without (suc n) d,
  )
  | inr before ↦ ground (
    arith,
    before,
    length-lt_of_missing n (without (suc n) d) p (without-IsRecorded n d r),
    count-without p (suc n) d,
    length-without (suc n) d,
    r.once (suc n),
  )
]
