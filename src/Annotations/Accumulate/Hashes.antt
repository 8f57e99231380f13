-- ===== src/Annotations/Accumulate/Hashes.antt =====
-- all_annotated and the hashes taken from it, against a description of them.
use badgerdoc.Base.{
  ℕ, ◌≡◌, refl, Bool, true, false, Option, none, some, List, [], ◌∷◌, if◌then◌else◌, contains,
  contains-equal, arith, number_key, lookup, lookup_last, has_key, has_key-lookup, IsDict,
  lookup-update, Bool-cases, inl, inr, ok, Option-cases,
}
use badgerdoc.Annotations.Types.{Text, Revision}
use badgerdoc.Annotations.Accumulate.{
  Seen, visit_revision, visit_revisions, only_pages, restrict, hashes_of,
}
use badgerdoc.Annotations.Accumulate.Status.{until}

-- The hash of the page in the last of the revisions that annotate it.
abbrev pub last_hash : ℕ → List Revision → Option Text
last_hash page [] = none
last_hash page (r ∷ rs) = elim (last_hash page rs) [
  | some hash ↦ some hash
  | none ↦ lookup_last page r.pages
]

pub lookup-visit_hashes :
    (stop : Option Text) (p : ℕ) (seen : Seen) (rs : List Revision)
    → lookup p (visit_revisions stop seen rs).0.0
      ≡ elim (last_hash p (until stop rs)) [ some hash ↦ some hash | none ↦ lookup p seen.0 ]
unfolding visit_revisions
lookup-visit_hashes stop p seen [] = refl
lookup-visit_hashes stop p (all, latest) (r ∷ rs) = ground (
  arith,
  lookup-update p all r.pages,
  lookup-visit_hashes stop p (visit_revision (all, latest) r) rs,
)

-- No specific pages are all pages.
abbrev pub is_chosen : List ℕ → ℕ → Bool
is_chosen [] page = true
is_chosen (p ∷ ps) page = contains page (p ∷ ps)

lookup-only_pages :
    {V : Type 0} (p : ℕ) (ps : List ℕ) (d : List (ℕ × V))
    → lookup p (only_pages ps d) ≡ (if contains p ps then lookup p d else none)
lookup-only_pages p ps [] = ground arith
lookup-only_pages p ps ((k, v) ∷ d) =
    ground (arith, lookup-only_pages p ps d, contains-equal k p ps)

has_key-only_pages :
    {V : Type 0} (p : ℕ) (ps : List ℕ) (d : List (ℕ × V))
    → has_key p d ≡ false
    → has_key p (only_pages ps d) ≡ false
has_key-only_pages p ps [] h = refl
has_key-only_pages p ps ((k, v) ∷ d) h = ground (arith, has_key-only_pages p ps d)

only_pages-IsDict :
    {V : Type 0} (ps : List ℕ) (d : List (ℕ × V)) → IsDict d → IsDict (only_pages ps d)
only_pages-IsDict ps [] h = tt
only_pages-IsDict ps ((k, v) ∷ d) h =
    let rest = only_pages-IsDict ps d h.1 in
    elim (Bool-cases (contains k ps)) [
      | inl e ↦ rw e (has_key-only_pages k ps d h.0, rest)
      | inr e ↦ rw e rest
    ]

-- What is left of the two dicts.
pub record IsRestricted (specific : List ℕ) (seen left : Seen) : Type 0 where
  pub annotated :
      (p : ℕ) → lookup p left.0 ≡ (if is_chosen specific p then lookup p seen.0 else none)
  pub status : (p : ℕ) → lookup p left.1 ≡ (if is_chosen specific p then lookup p seen.1 else none)
  pub dict : IsDict left.1

pub restrict_hashes :
    (specific : List ℕ) (seen : Seen)
    → IsDict seen.1
    → (left : Seen) × (restrict specific true seen ≡ ok left) × IsRestricted specific seen left
unfolding restrict
restrict_hashes [] seen h =
    (seen, refl, record { annotated = λ p. refl; status = λ p. refl; dict = h })
restrict_hashes (s ∷ ss) (all, latest) h = (
  (only_pages (s ∷ ss) all, only_pages (s ∷ ss) latest),
  refl,
  record {
    annotated = λ p. lookup-only_pages p (s ∷ ss) all;
    status = λ p. lookup-only_pages p (s ∷ ss) latest;
    dict = only_pages-IsDict (s ∷ ss) latest h;
  },
)

-- hashes_of does not raise for pages with a hash, and gives them.
pub hashes_of_total :
    (all : List (ℕ × Text)) (pages : List ℕ)
    → ((p : ℕ) → contains p pages ≡ true → has_key p all ≡ true)
    → (d : List (ℕ × Text)) × (hashes_of all pages ≡ ok d)
      × ((p : ℕ) → lookup p d ≡ (if contains p pages then lookup p all else none))
unfolding hashes_of
hashes_of_total all [] h = ([], refl, λ p. refl)
hashes_of_total all (page ∷ pages) h =
    let (d, e, l) = hashes_of_total all pages (λ p c. h p (ground (arith, c))) in
    elim (Option-cases (lookup page all)) [
      | inl nothing ↦ absurd (ground (arith, h page, has_key-lookup page all, nothing))
      | inr (hash, found) ↦ ((page, hash) ∷ d, rw (found, e) refl, λ p. ground (arith, found, l p))
    ]
