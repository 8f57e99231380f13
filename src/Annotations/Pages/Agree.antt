-- ===== src/Annotations/Pages/Agree.antt =====
-- The two functions agree: the latest entry of a user for a page is the last of all the user's entries.
use badgerdoc.Base.{
  ℕ, ◌≡◌, refl, ap, sym, ◌∙◌, true, false, ◌&&◌, Option, none, some, is_some, List, [], ◌∷◌, ◌++◌,
  if◌then◌else◌, ◌==◌, arith, number_key, option_key, lookup-put, same_refl, ==_iff, Bool-cases,
  inl, inr,
}
use badgerdoc.Annotations.Types.{Text, Revision}
use badgerdoc.Annotations.Pages.{
  PageEntry, page_entry, validate, asked_pages, asked_validated, get_list, LatestPages, put_latest,
  mark_latest, AllPages, append_page, has_user, validate_last, mark_all, for_each, visit_latest,
  visit_all, find_latest_revision_pages, find_all_revisions_pages,
}
use badgerdoc.Annotations.Pages.Latest.{
  entry_of, validated_entry, entry_of-put_latest, entry_of-mark_latest,
}
open option_key use {same}

-- The last of the user's entries.
abbrev pub last_entry : Option ℕ → List (Option ℕ × PageEntry) → Option PageEntry
last_entry user [] = none
last_entry user ((u, entry) ∷ entries) = elim (last_entry user entries) [
  | some later ↦ some later
  | none ↦ if same u user then some entry else none
]

abbrev pub newest : ℕ → Option ℕ → AllPages → Option PageEntry
newest page user pages = last_entry user (get_list page pages)

last_entry-append :
    (user u : Option ℕ) (entry : PageEntry) (entries : List (Option ℕ × PageEntry))
    → last_entry user (entries ++ (u, entry) ∷ [])
      ≡ (if same u user then some entry else last_entry user entries)
last_entry-append user u entry [] = refl
last_entry-append user u entry ((v, e) ∷ entries) =
    ground (arith, last_entry-append user u entry entries)

has_user-last_entry :
    (user : Option ℕ) (entries : List (Option ℕ × PageEntry))
    → has_user user entries ≡ is_some (last_entry user entries)
has_user-last_entry user [] = refl
has_user-last_entry user ((v, e) ∷ entries) = ground (arith, has_user-last_entry user entries)

same_users : (u v w : Option ℕ) → same u v ≡ true → same u w ≡ same v w
same_users u v w h = rw ((option_key.same_iff u v).0 h) refl

-- For the user himself and for others.
last_entry-validate_last :
    (user : Option ℕ) (entries : List (Option ℕ × PageEntry))
    → last_entry user (validate_last user entries)
      ≡ elim (last_entry user entries) [ none ↦ none | some e ↦ some (validate e) ]
last_entry-validate_last user [] = refl
last_entry-validate_last user ((v, e) ∷ entries) =
    ground (arith, last_entry-validate_last user entries, has_user-last_entry user entries)

last_entry-validate_other :
    (user u : Option ℕ) (entries : List (Option ℕ × PageEntry))
    → same u user ≡ false
    → last_entry user (validate_last u entries) ≡ last_entry user entries
last_entry-validate_other user u [] h = refl
last_entry-validate_other user u ((v, e) ∷ entries) h =
    ground (arith, last_entry-validate_other user u entries, same_users v u user, h)

newest-append_page :
    (page : ℕ) (user : Option ℕ) (r : Revision) (pages : AllPages) (p : ℕ) (id : Text)
    → newest page user (append_page r pages (p, id)) ≡ (
        if p == page && same r.user user
        then some (page_entry r (some id) false)
        else newest page user pages)
newest-append_page page user r pages p id =
    let entry = page_entry r (some id) false in
    let entries = get_list p pages in
    ground (
      arith,
      lookup-put p page (entries ++ (r.user, entry) ∷ []) pages,
      last_entry-append user r.user entry entries,
    )

-- The user's own entries when he validates the page.
last_entry_own :
    (r : Revision) (entries : List (Option ℕ × PageEntry))
    → last_entry r.user (
        if has_user r.user entries
        then validate_last r.user entries
        else entries ++ (r.user, page_entry r none true) ∷ [])
      ≡ some (validated_entry r (last_entry r.user entries))
last_entry_own r entries =
    let entry = page_entry r none true in
    ground (
      arith,
      has_user-last_entry r.user entries,
      last_entry-validate_last r.user entries,
      last_entry-append r.user r.user entry entries,
      same_refl r.user,
    )

last_entry_marked :
    (user : Option ℕ) (r : Revision) (entries : List (Option ℕ × PageEntry))
    → last_entry user (
        if has_user r.user entries
        then validate_last r.user entries
        else entries ++ (r.user, page_entry r none true) ∷ [])
      ≡ (if same r.user user
          then some (validated_entry r (last_entry user entries))
          else last_entry user entries)
last_entry_marked user r entries =
    let entry = page_entry r none true in
    elim (Bool-cases (same r.user user)) [
      | inl own ↦ rw own (rw (← (option_key.same_iff r.user user).0 own) (last_entry_own r entries))
      | inr other ↦ ground (
        arith,
        other,
        last_entry-validate_other user r.user entries,
        last_entry-append user r.user entry entries,
      )
    ]

newest-mark_all :
    (page : ℕ) (user : Option ℕ) (r : Revision) (pages : AllPages) (p : ℕ)
    → newest page user (mark_all r pages p) ≡ (
        if p == page && same r.user user
        then some (validated_entry r (newest page user pages))
        else newest page user pages)
newest-mark_all page user r pages p =
    let entries = get_list p pages in
    let validated = validate_last r.user entries in
    let appended = entries ++ (r.user, page_entry r none true) ∷ [] in
    let equal : (p == page) ≡ true → get_list p pages ≡ get_list page pages =
      λ h. ap (λ n. get_list n pages) ((==_iff p page).0 h) in
    ground (
      arith,
      lookup-put p page validated pages,
      lookup-put p page appended pages,
      last_entry_marked user r entries,
      equal,
    )

-- The entry of each user for each page is the last one of his entries.
abbrev pub IsAgreeing : LatestPages → AllPages → Type 0
IsAgreeing latest all =
    (page : ℕ) (user : Option ℕ) → entry_of page user latest ≡ newest page user all

module _ (r : Revision) where
  append_each-IsAgreeing :
      (items : List (ℕ × Text)) (latest : LatestPages) (all : AllPages)
      → IsAgreeing latest all
      → IsAgreeing (for_each (put_latest r) latest items) (for_each (append_page r) all items)
  append_each-IsAgreeing [] latest all h = h
  append_each-IsAgreeing ((p, id) ∷ items) latest all h =
      append_each-IsAgreeing items (put_latest r latest (p, id)) (append_page r all (p, id))
        (λ page user. ground (
          arith,
          entry_of-put_latest page user r latest p id,
          newest-append_page page user r all p id,
          h page user,
        ))

  mark_each-IsAgreeing :
      (ns : List ℕ) (latest : LatestPages) (all : AllPages)
      → IsAgreeing latest all
      → IsAgreeing (for_each (mark_latest r) latest ns) (for_each (mark_all r) all ns)
  mark_each-IsAgreeing [] latest all h = h
  mark_each-IsAgreeing (p ∷ ns) latest all h =
      mark_each-IsAgreeing ns (mark_latest r latest p) (mark_all r all p) (λ page user.
        entry_of-mark_latest page user r latest p
        ∙ ap (λ e. if p == page && same r.user user then some (validated_entry r e) else e)
            (h page user)
        ∙ sym (newest-mark_all page user r all p))

visit_each-IsAgreeing :
    (numbers : List ℕ) (rs : List Revision) (latest : LatestPages) (all : AllPages)
    → IsAgreeing latest all
    → IsAgreeing (for_each (visit_latest numbers) latest rs) (for_each (visit_all numbers) all rs)
visit_each-IsAgreeing numbers [] latest all h = h
visit_each-IsAgreeing numbers (r ∷ rs) latest all h =
    visit_each-IsAgreeing numbers rs (visit_latest numbers latest r) (visit_all numbers all r) (
      mark_each-IsAgreeing r (asked_validated numbers r) _ _
        (append_each-IsAgreeing r (asked_pages numbers r) latest all h))

-- For every page and user, the entry in the result of find_latest_revision_pages is the last of the
-- user's entries in the result of find_all_revisions_pages.
pub find_latest_revision_pages-IsAgreeing :
    (revisions : List Revision) (numbers : List ℕ)
    → IsAgreeing
        (find_latest_revision_pages revisions numbers)
        (find_all_revisions_pages revisions numbers)
unfolding find_latest_revision_pages find_all_revisions_pages
find_latest_revision_pages-IsAgreeing revisions numbers =
    visit_each-IsAgreeing numbers revisions [] [] (λ page user. refl)
