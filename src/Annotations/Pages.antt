-- ===== src/Annotations/Pages.antt =====
-- annotation/annotation/annotations/main.py: find_all_revisions_pages and find_latest_revision_pages,
-- which read from the revisions of a file what every user has made of its pages. `page_numbers` are the
-- pages that are asked for.
pub mod Latest
pub mod Agree
use badgerdoc.Base.{
  ℕ, Bool, true, false, Option, none, some, is_some, List, [], ◌∷◌, ◌++◌, if◌then◌else◌, contains,
  filter_by, Key, number_key, option_key, lookup, put,
}
use badgerdoc.Annotations.Types.{Text, Revision}
open option_key use {same}

-- PageRevision, but for the user, and LatestPageRevision.
pub record PageEntry : Type 0 where
  pub pipeline : Option ℕ
  pub job_id : ℕ
  pub file_id : ℕ
  pub revision : Text
  pub page_id : Option Text
  pub date : ℕ
  pub is_validated : Bool
  pub categories : List Text

abbrev pub page_entry : Revision → Option Text → Bool → PageEntry
page_entry r page_id is_validated = record {
  pipeline = r.pipeline;
  job_id = r.job_id;
  file_id = r.file_id;
  revision = r.revision;
  page_id = page_id;
  date = r.date;
  is_validated = is_validated;
  categories = r.categories;
}

-- `entry["is_validated"] = True`
abbrev pub validate : PageEntry → PageEntry
validate entry = record entry { is_validated = true }

-- The items of revision.pages and of revision.validated that are asked for.
abbrev pub asked_pages : List ℕ → Revision → List (ℕ × Text)
asked_pages page_numbers r = filter_by (λ item. contains item.0 page_numbers) r.pages

abbrev pub asked_validated : List ℕ → Revision → List ℕ
asked_validated page_numbers r = filter_by (λ page. contains page page_numbers) r.validated

-- `d.get(k, [])`, and the value that setdefault finds or makes.
abbrev pub get_list : {A : Type 0} → ℕ → List (ℕ × List A) → List A
get_list page d = elim (lookup page d) [ none ↦ [] | some items ↦ items ]

-- A page's entries by user.
abbrev pub LatestPages : Type 0
LatestPages = List (ℕ × List (Option ℕ × PageEntry))

abbrev pub put_latest : Revision → LatestPages → ℕ × Text → LatestPages
put_latest r pages (page_num, page_id) =
    put page_num (put r.user (page_entry r (some page_id) false) (get_list page_num pages)) pages

-- The loop body of mark_latest_revision_validated_pages, with its handler of KeyError.
abbrev pub mark_latest : Revision → LatestPages → ℕ → LatestPages
mark_latest r pages page_num =
    let users = get_list page_num pages in
    elim (lookup r.user users) [
      | some entry ↦ put page_num (put r.user (validate entry) users) pages
      | none ↦ put page_num (put r.user (page_entry r none true) users) pages
    ]

-- A page's entries with their users, oldest first.
abbrev pub AllPages : Type 0
AllPages = List (ℕ × List (Option ℕ × PageEntry))

abbrev pub append_page : Revision → AllPages → ℕ × Text → AllPages
append_page r pages (page_num, page_id) =
    put page_num (get_list page_num pages ++ (r.user, page_entry r (some page_id) false) ∷ []) pages

abbrev pub has_user : Option ℕ → List (Option ℕ × PageEntry) → Bool
has_user user [] = false
has_user user ((u, _) ∷ entries) = if same u user then true else has_user user entries

-- `validated_pages[-1]["is_validated"] = True`, in place.
abbrev pub validate_last : Option ℕ → List (Option ℕ × PageEntry) → List (Option ℕ × PageEntry)
validate_last user [] = []
validate_last user ((u, entry) ∷ entries) =
    let later = validate_last user entries in
    if has_user user entries
    then (u, entry) ∷ later
    else if same u user
    then (u, validate entry) ∷ entries
    else (u, entry) ∷ entries

-- The loop body of mark_all_revisions_validated_pages.
abbrev pub mark_all : Revision → AllPages → ℕ → AllPages
mark_all r pages page_num =
    let entries = get_list page_num pages in
    if has_user r.user entries
    then put page_num (validate_last r.user entries) pages
    else put page_num (entries ++ (r.user, page_entry r none true) ∷ []) pages

-- `for x in xs: state = body(state, x)`
abbrev pub for_each : {S A : Type 0} → (S → A → S) → S → List A → S
for_each body state [] = state
for_each body state (x ∷ xs) = for_each body (body state x) xs

abbrev pub visit_latest : List ℕ → LatestPages → Revision → LatestPages
visit_latest page_numbers pages r =
    for_each (mark_latest r) (for_each (put_latest r) pages (asked_pages page_numbers r))
      (asked_validated page_numbers r)

unfoldable pub find_latest_revision_pages : List Revision → List ℕ → LatestPages
find_latest_revision_pages revisions page_numbers =
    for_each (visit_latest page_numbers) [] revisions

abbrev pub visit_all : List ℕ → AllPages → Revision → AllPages
visit_all page_numbers pages r =
    for_each (mark_all r) (for_each (append_page r) pages (asked_pages page_numbers r))
      (asked_validated page_numbers r)

unfoldable pub find_all_revisions_pages : List Revision → List ℕ → AllPages
find_all_revisions_pages revisions page_numbers = for_each (visit_all page_numbers) [] revisions
