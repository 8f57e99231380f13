-- ===== src/Annotations/Pages/Latest.antt =====
-- find_latest_revision_pages against a description of one user's entry for one page.
use badgerdoc.Base.{
  ℕ, ◌≡◌, refl, ap, ◌∙◌, true, false, ◌&&◌, Option, none, some, List, [], ◌∷◌, if◌then◌else◌, ◌==◌,
  contains, contains-equal, filter_by, arith, number_key, option_key, lookup, lookup_last, put,
  lookup-put, Bool-cases, inl, inr,
}
use badgerdoc.Annotations.Types.{Text, Revision}
use badgerdoc.Annotations.Pages.{
  PageEntry, page_entry, validate, asked_pages, get_list, LatestPages, put_latest, mark_latest,
  for_each, visit_latest, find_latest_revision_pages,
}
open option_key use {same}

-- The user's entry for the page.
abbrev pub entry_of : ℕ → Option ℕ → LatestPages → Option PageEntry
entry_of page user pages = lookup user (get_list page pages)

-- An entry that is validated: the old one, or a new one without an annotation.
abbrev pub validated_entry : Revision → Option PageEntry → PageEntry
validated_entry r none = page_entry r none true
validated_entry r (some entry) = validate entry

pub entry_of-put_latest :
    (page : ℕ) (user : Option ℕ) (r : Revision) (pages : LatestPages) (p : ℕ) (id : Text)
    → entry_of page user (put_latest r pages (p, id)) ≡ (
        if p == page && same r.user user
        then some (page_entry r (some id) false)
        else entry_of page user pages)
entry_of-put_latest page user r pages p id =
    let entry = page_entry r (some id) false in
    let users = put r.user entry (get_list p pages) in
    ground (arith, lookup-put p page users pages, lookup-put r.user user entry (get_list p pages))

same_entry :
    (p page : ℕ) (u user : Option ℕ) (pages : LatestPages)
    → (p == page && same u user) ≡ true
    → entry_of p u pages ≡ entry_of page user pages
same_entry p page u user pages h =
    let pages_same : p ≡ page = ground (arith, h) in
    let users_same : u ≡ user = (option_key.same_iff u user).0 (ground (arith, h)) in
    rw (pages_same, users_same) refl

-- Both branches store the validated entry.
mark_branches :
    (r : Revision) (pages : LatestPages) (p : ℕ) (old : Option PageEntry)
    → let users = get_list p pages in
      elim old as (λ _. LatestPages) [
        | some entry ↦ put p (put r.user (validate entry) users) pages
        | none ↦ put p (put r.user (page_entry r none true) users) pages
      ]
      ≡ put p (put r.user (validated_entry r old) users) pages
mark_branches r pages p none = refl
mark_branches r pages p (some entry) = refl

pub entry_of-mark_latest :
    (page : ℕ) (user : Option ℕ) (r : Revision) (pages : LatestPages) (p : ℕ)
    → entry_of page user (mark_latest r pages p) ≡ (
        if p == page && same r.user user
        then some (validated_entry r (entry_of page user pages))
        else entry_of page user pages)
entry_of-mark_latest page user r pages p =
    let users = get_list p pages in
    let e = validated_entry r (lookup r.user users) in
    ap (entry_of page user) (mark_branches r pages p (lookup r.user users))
    ∙ ground (
      arith,
      lookup-put p page (put r.user e users) pages,
      lookup-put r.user user e users,
      same_entry p page r.user user pages,
    )

-- What one revision makes of a user's entry for a page that is asked for.
abbrev pub annotate_entry : ℕ → Revision → Option PageEntry → Option PageEntry
annotate_entry page r entry = elim (lookup_last page r.pages) [
  | some page_id ↦ some (page_entry r (some page_id) false)
  | none ↦ entry
]

abbrev pub validate_entry : ℕ → Revision → Option PageEntry → Option PageEntry
validate_entry page r entry =
    if contains page r.validated then some (validated_entry r entry) else entry

-- The user's entry for the page behind a revision: only the user's own revisions count.
abbrev pub entry_after : ℕ → Option ℕ → Option PageEntry → Revision → Option PageEntry
entry_after page user entry r =
    if same r.user user then validate_entry page r (annotate_entry page r entry) else entry

-- Validating twice is validating once.
validated_again :
    (r : Revision) (entry : Option PageEntry)
    → validated_entry r (some (validated_entry r entry)) ≡ validated_entry r entry
validated_again r none = refl
validated_again r (some entry) = refl

entry_of-put_all :
    (page : ℕ) (user : Option ℕ) (numbers : List ℕ) (r : Revision) (items : List (ℕ × Text))
    (pages : LatestPages)
    → entry_of page user
        (for_each (put_latest r) pages (filter_by (λ item. contains item.0 numbers) items))
      ≡ (if contains page numbers && same r.user user
          then elim (lookup_last page items) [
            | some page_id ↦ some (page_entry r (some page_id) false)
            | none ↦ entry_of page user pages
          ]
          else entry_of page user pages)
entry_of-put_all page user numbers r [] pages = ground arith
entry_of-put_all page user numbers r ((p, id) ∷ items) pages = ground (
  arith,
  entry_of-put_all page user numbers r items pages,
  entry_of-put_all page user numbers r items (put_latest r pages (p, id)),
  entry_of-put_latest page user r pages p id,
  contains-equal p page numbers,
)

entry_of-mark_each :
    (page : ℕ) (user : Option ℕ) (numbers : List ℕ) (r : Revision) (ns : List ℕ)
    (pages : LatestPages)
    → entry_of page user (for_each (mark_latest r) pages (filter_by (λ p. contains p numbers) ns))
      ≡ (if contains page numbers && same r.user user && contains page ns
          then some (validated_entry r (entry_of page user pages))
          else entry_of page user pages)
entry_of-mark_each page user numbers r [] pages = ground arith
entry_of-mark_each page user numbers r (p ∷ ns) pages = ground (
  arith,
  entry_of-mark_each page user numbers r ns pages,
  entry_of-mark_each page user numbers r ns (mark_latest r pages p),
  entry_of-mark_latest page user r pages p,
  contains-equal p page numbers,
  validated_again r (entry_of page user pages),
)

entry_of-visit_latest :
    (page : ℕ) (user : Option ℕ) (numbers : List ℕ) (pages : LatestPages) (r : Revision)
    → entry_of page user (visit_latest numbers pages r) ≡ (
        if contains page numbers
        then entry_after page user (entry_of page user pages) r
        else entry_of page user pages)
entry_of-visit_latest page user numbers pages r = ground (
  arith,
  entry_of-put_all page user numbers r r.pages pages,
  entry_of-mark_each page user numbers r r.validated
      (for_each (put_latest r) pages (asked_pages numbers r)),
)

entry_of-visit_each :
    (page : ℕ) (user : Option ℕ) (numbers : List ℕ) (pages : LatestPages) (rs : List Revision)
    → entry_of page user (for_each (visit_latest numbers) pages rs) ≡ (
        if contains page numbers
        then for_each (entry_after page user) (entry_of page user pages) rs
        else entry_of page user pages)
entry_of-visit_each page user numbers pages [] = ground arith
entry_of-visit_each page user numbers pages (r ∷ rs) =
    let here = entry_of-visit_latest page user numbers pages r in
    let later = entry_of-visit_each page user numbers (visit_latest numbers pages r) rs in
    elim (Bool-cases (contains page numbers)) [
      | inl asks ↦ rw asks (rw (asks, rw asks at here) at later)
      | inr other ↦ rw other (rw (other, rw other at here) at later)
    ]

-- For each page that is asked for and each user, find_latest_revision_pages holds the entry that the
-- user's own revisions leave, one after the other: an annotation of the page replaces it, a validation
-- marks it, or makes one without an annotation. Other pages have no entry.
pub find_latest_revision_pages-entry_of :
    (revisions : List Revision) (numbers : List ℕ) (page : ℕ) (user : Option ℕ)
    → entry_of page user (find_latest_revision_pages revisions numbers)
      ≡ (if contains page numbers then for_each (entry_after page user) none revisions else none)
unfolding find_latest_revision_pages
find_latest_revision_pages-entry_of revisions numbers page user =
    ground (arith, entry_of-visit_each page user numbers [] revisions)
