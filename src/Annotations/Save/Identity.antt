-- ===== src/Annotations/Save/Identity.antt =====
-- annotation/annotation/annotations/main.py: check_docs_identity and get_pages_sha, against descriptions of what
-- they find.
use badgerdoc.Base.{
  ℕ, ◌≡◌, refl, ◌∙◌, ap, sym, Bool, true, false, ◌==◌, ==_iff, Option, none, some, List, [], ◌∷◌,
  ◌++◌, if◌then◌else◌, number_key, lookup, lookup_last, put, lookup-put, length, contains, All,
  Bool-cases, Option-cases, inl, inr, arith,
}
use badgerdoc.Annotations.Types.{Text, same_text, Revision}
use badgerdoc.Annotations.Tables.{Services}
use badgerdoc.Annotations.Save.{
  Page, DocForSave, subset, items_in, same_categories, check_docs_identity, hash_pages,
}

pub same_text_refl : (t : Text) → same_text t t ≡ true
same_text_refl [] = refl
same_text_refl (c ∷ t) = ground (arith, same_text_refl t)

pub same_text-equal : (s t : Text) → same_text s t ≡ true → s ≡ t
same_text-equal [] [] h = refl
same_text-equal [] (y ∷ t) h = ground (arith, h)
same_text-equal (x ∷ s) [] h = ground (arith, h)
same_text-equal (x ∷ s) (y ∷ t) h = elim (Bool-cases (x == y)) [
  | inl e ↦ ground (arith, same_text-equal s t, e, h)
  | inr e ↦ ground (arith, e, h)
]

-- The latest revision has as many pages, each with the hash that the new one has for it, the same validated and
-- the same failed pages, and neither has categories.
pub record IsSameDoc (latest_doc new_doc : Revision) : Type 0 where
  pub number : length latest_doc.pages ≡ length new_doc.pages
  pub hashes : All (λ item. lookup item.0 new_doc.pages ≡ some item.1) latest_doc.pages
  pub validated : (page : ℕ) → contains page latest_doc.validated ≡ contains page new_doc.validated
  pub failed :
      (page : ℕ)
      → contains page latest_doc.failed_validation_pages
        ≡ contains page new_doc.failed_validation_pages
  pub no_categories : (latest_doc.categories ≡ []) × (new_doc.categories ≡ [])

subset-contains :
    (page : ℕ) (xs ys : List ℕ)
    → subset xs ys ≡ true
    → contains page xs ≡ true
    → contains page ys ≡ true
subset-contains page [] ys h c = ground (arith, c)
subset-contains page (x ∷ xs) ys h c = elim (Bool-cases (page == x)) [
  | inl e ↦ ground (arith, h, (==_iff page x).0 e)
  | inr e ↦ ground (arith, h, c, e, subset-contains page xs ys)
]

contains-subset :
    (xs ys : List ℕ)
    → ((page : ℕ) → contains page xs ≡ true → contains page ys ≡ true)
    → subset xs ys ≡ true
contains-subset [] ys h = refl
contains-subset (x ∷ xs) ys h =
    let head = h x (ground (arith, (==_iff x x).1 refl)) in
    let tail = contains-subset xs ys (λ page c. h page (ground (arith, c))) in
    ground (arith, head, tail)

same_members :
    (page : ℕ) (xs ys : List ℕ)
    → subset xs ys ≡ true
    → subset ys xs ≡ true
    → contains page xs ≡ contains page ys
same_members page xs ys h g =
    ground (arith, subset-contains page xs ys h, subset-contains page ys xs g)

items_in-hashes :
    (d e : List (ℕ × Text)) → items_in d e ≡ true → All (λ item. lookup item.0 e ≡ some item.1) d
items_in-hashes [] e h = tt
items_in-hashes ((k, v) ∷ d) e h = elim (Option-cases (lookup k e)) [
  | inl none_ ↦ absurd (ground (arith, h, none_))
  | inr (w, found) ↦
      let same : v ≡ w = same_text-equal v w (ground (arith, h, found)) in
      (found ∙ ap some (sym same), items_in-hashes d e (ground (arith, h, found)))
]

hashes-items_in :
    (d e : List (ℕ × Text)) → All (λ item. lookup item.0 e ≡ some item.1) d → items_in d e ≡ true
hashes-items_in [] e h = refl
hashes-items_in ((k, v) ∷ d) e h = ground (arith, h.0, same_text_refl v, hashes-items_in d e h.1)

same_categories-none :
    (old new : List Text) → same_categories old new ≡ true → (old ≡ []) × (new ≡ [])
same_categories-none [] [] h = (refl, refl)
same_categories-none (c ∷ old) [] h = absurd (ground (arith, h))
same_categories-none [] (c ∷ new) h = absurd (ground (arith, h))
same_categories-none (b ∷ old) (c ∷ new) h = absurd (ground (arith, h))

pub check_docs_identity-IsSameDoc :
    (l r : Revision) → check_docs_identity (some l) r ≡ true → IsSameDoc l r
unfolding check_docs_identity
check_docs_identity-IsSameDoc l r h = record {
  number = (==_iff (length l.pages) (length r.pages)).0 (ground (arith, h));
  hashes = items_in-hashes l.pages r.pages (ground (arith, h));
  validated =
      λ page. same_members page l.validated r.validated (ground (arith, h)) (ground (arith, h));
  failed = λ page.
      same_members page l.failed_validation_pages r.failed_validation_pages (ground (arith, h))
        (ground (arith, h));
  no_categories = same_categories-none l.categories r.categories (ground (arith, h));
}

pub IsSameDoc-check_docs_identity :
    (l r : Revision) → IsSameDoc l r → check_docs_identity (some l) r ≡ true
unfolding check_docs_identity
IsSameDoc-check_docs_identity l r s =
    rw
      (
        (==_iff (length l.pages) (length r.pages)).1 s.number,
        hashes-items_in l.pages r.pages s.hashes,
        contains-subset l.validated r.validated (λ page c. ground (arith, s.validated page, c)),
        contains-subset r.validated l.validated (λ page c. ground (arith, s.validated page, c)),
        contains-subset l.failed_validation_pages r.failed_validation_pages
            (λ page c. ground (arith, s.failed page, c)),
        contains-subset r.failed_validation_pages l.failed_validation_pages
            (λ page c. ground (arith, s.failed page, c)),
        s.no_categories.0,
        s.no_categories.1,
      )
      refl

module _ (services : Services) where
  -- The hash of the last page of the request with this number.
  abbrev pub request_hash : ℕ → List (Page services) → Option Text
  request_hash p [] = none
  request_hash p (page ∷ pages) = elim (request_hash p pages) [
    | some hash ↦ some hash
    | none ↦
        if page.page_num == p
        then some (services.sha1 (services.encode (services.dumps_page page.page_num page.content)))
        else none
  ]

  -- On a merge the hash of the latest revision goes first.
  abbrev pub expected_hash : ℕ → DocForSave services → Option Revision → Bool → Option Text
  expected_hash p doc latest_doc true = request_hash p doc.pages
  expected_hash p doc none false = request_hash p doc.pages
  expected_hash p doc (some latest_doc) false = elim (lookup_last p latest_doc.pages) [
    | some hash ↦ some hash
    | none ↦ request_hash p doc.pages
  ]

  -- The bytes of the pages of the request, one behind the other.
  abbrev pub request_bytes : List (Page services) → List ℕ
  request_bytes [] = []
  request_bytes (page ∷ pages) =
      services.encode (services.dumps_page page.page_num page.content) ++ request_bytes pages

  pub lookup-hash_pages :
      (p : ℕ) (pages : List (Page services)) (d : List (ℕ × Text)) (b : List ℕ)
      → lookup p (hash_pages services pages d b).0
        ≡ elim (request_hash p pages) [ some hash ↦ some hash | none ↦ lookup p d ]
  lookup-hash_pages p [] d b = refl
  lookup-hash_pages p (page ∷ pages) d b =
      let b_page = services.encode (services.dumps_page page.page_num page.content) in
      let hash = services.sha1 b_page in
      ground (
        arith,
        lookup-hash_pages p pages (put page.page_num hash d) (b ++ b_page),
        lookup-put page.page_num p hash d,
      )
