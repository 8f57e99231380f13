-- ===== src/Distribution/Validation/Take.antt =====
-- What one validator takes of the pages of one file.
use badgerdoc.Base.{
  ℕ, ◌+◌, ◌≤◌, ◌≡◌, refl, inl, inr, ℤ, pos, ◌==ℤ◌, Bool, false, not, ◌&&◌, List, [], ◌∷◌,
  if◌then◌else◌, contains, contains-count, count, count-filter_by, arith, Bool-cases,
}
use badgerdoc.Distribution.Validation.{load_after, take_pages, difference}

count-keep :
    (page p : ℕ) (annotated taken pages : List ℕ)
    → count page taken ≤ (if contains page annotated then 0 else count page pages)
    → count page (if not (contains p annotated) then p ∷ taken else taken)
      ≤ (if contains page annotated then 0 else count page (p ∷ pages))
count-keep page p annotated taken pages h = ground arith

count-keep_all :
    (page p : ℕ) (annotated taken pages : List ℕ)
    → count page taken ≡ (if contains page annotated then 0 else count page pages)
    → count page (if not (contains p annotated) then p ∷ taken else taken)
      ≡ (if contains page annotated then 0 else count page (p ∷ pages))
count-keep_all page p annotated taken pages h = ground arith

-- A page that the validator annotates is never taken; any other is taken as often as it is there, or
-- not at all once the load is used up.
pub count-take_pages :
    (page : ℕ) (count_pages : Bool) (annotated : List ℕ) (load : ℤ) (pages : List ℕ)
    → count page (take_pages count_pages annotated load pages).0
      ≤ (if contains page annotated then 0 else count page pages)
unfolding take_pages
count-take_pages page c annotated load [] = ground arith
count-take_pages page c annotated load (p ∷ pages) =
    let fresh = not (contains p annotated) in
    let kept =
      count-keep page p annotated (take_pages c annotated (load_after fresh load) pages).0 pages
        (count-take_pages page c annotated (load_after fresh load) pages) in
    elim (Bool-cases (c && (load ==ℤ pos 0))) [
      | inl stop ↦ rw stop (ground arith)
      | inr go ↦ rw go kept
    ]

-- Without counting the load every page is taken that the validator does not annotate.
pub count-take_pages_all :
    (page : ℕ) (annotated : List ℕ) (load : ℤ) (pages : List ℕ)
    → (count page (take_pages false annotated load pages).0
        ≡ (if contains page annotated then 0 else count page pages))
      × ((take_pages false annotated load pages).2 ≡ false)
unfolding take_pages
count-take_pages_all page annotated load [] = (ground arith, refl)
count-take_pages_all page annotated load (p ∷ pages) =
    let fresh = not (contains p annotated) in
    let (ih, on) = count-take_pages_all page annotated (load_after fresh load) pages in
    (
      count-keep_all page p annotated (take_pages false annotated (load_after fresh load) pages).0
          pages ih,
      on,
    )

-- What is taken and what is left make up the pages, if no page is there twice.
pub count-difference :
    (page : ℕ) (pages taken : List ℕ)
    → count page pages ≤ 1
    → count page taken ≤ count page pages
    → count page taken + count page (difference pages taken) ≡ count page pages
count-difference page pages taken once h =
    ground
      (arith, count-filter_by page (λ p. not (contains p taken)) pages, contains-count page taken)
