-- ===== src/Annotations/Accumulate.antt =====
-- annotation/annotation/annotations/main.py: accumulate_pages_info, which reads from the revisions of a
-- file, oldest first, which of its pages are annotated, validated, failed or not processed.
pub mod Status
pub mod Hashes
pub mod Required
pub mod Laws
use badgerdoc.Base.{
  ℕ, Bool, true, false, not, Option, none, some, List, [], ◌∷◌, if◌then◌else◌, ltb, contains,
  filter_by, number_key, lookup, put, update, Call, ok, raises, ◌>>=◌, index_error, key_error,
  attribute_error,
}
use badgerdoc.Annotations.Types.{Text, same_text, latest, Revision}

-- The keys of attr_map.
pub data PageStatus : Type 0 where
  annotated validated failed : PageStatus

abbrev pub same_status : PageStatus → PageStatus → Bool
same_status PageStatus.annotated PageStatus.annotated = true
same_status PageStatus.validated PageStatus.validated = true
same_status PageStatus.failed PageStatus.failed = true
same_status a b = false

abbrev pub keys : {V : Type 0} → List (ℕ × V) → List ℕ
keys [] = []
keys ((k, _) ∷ d) = k ∷ keys d

-- `latest_status.update({int(i): status for i in numbers})`
abbrev pub put_status : PageStatus → List ℕ → List (ℕ × PageStatus) → List (ℕ × PageStatus)
put_status status [] latest_status = latest_status
put_status status (i ∷ numbers) latest_status =
    put_status status numbers (put i status latest_status)

-- all_annotated, without the hashes the set of its keys, and latest_status.
abbrev pub Seen : Type 0
Seen = List (ℕ × Text) × List (ℕ × PageStatus)

abbrev pub visit_revision : Seen → Revision → Seen
visit_revision (all_annotated, latest_status) revision = (
  update all_annotated revision.pages,
  put_status PageStatus.failed revision.failed_validation_pages (
      put_status PageStatus.validated revision.validated
        (put_status PageStatus.annotated (keys revision.pages) latest_status)),
)

-- `stop_revision is not None and revision.revision == stop_revision`
abbrev pub is_stop : Option Text → Revision → Bool
is_stop none revision = false
is_stop (some stop) revision = same_text revision.revision stop

-- The loop over the revisions, with the revision where it breaks.
pub visit_revisions : Option Text → Seen → List Revision → Seen × Option Revision
visit_revisions stop seen [] = (seen, none)
visit_revisions stop seen (revision ∷ revisions) =
    let rest = visit_revisions stop (visit_revision seen revision) revisions in
    if is_stop stop revision then (visit_revision seen revision, some revision) else rest

-- `revisions[-1]`
abbrev pub last_revision : List Revision → Call Revision
last_revision [] = raises index_error
last_revision (revision ∷ []) = ok revision
last_revision (_ ∷ next ∷ revisions) = last_revision (next ∷ revisions)

-- required_revision after the loop and its else branch.
abbrev pub find_required : Option Text → List Revision → Option Revision → Call (Option Revision)
find_required stop revisions (some found) = ok (some found)
find_required none revisions none = ok none
find_required (some stop) revisions none =
    if same_text stop latest
    then (do revision ← last_revision revisions; ok (some revision))
    else ok none

-- `sorted(revisions, key=…date, reverse=True)`, which is stable.
abbrev pub insert_by_date : Revision → List Revision → List Revision
insert_by_date r [] = r ∷ []
insert_by_date r (s ∷ revisions) =
    let later = insert_by_date r revisions in
    if ltb r.date s.date then s ∷ later else r ∷ s ∷ revisions

abbrev pub sort_by_date : List Revision → List Revision
sort_by_date [] = []
sort_by_date (r ∷ revisions) = insert_by_date r (sort_by_date revisions)

abbrev pub first_categories : List Revision → Option (List Text)
first_categories [] = none
first_categories (revision ∷ revisions) = elim revision.categories [
  | [] ↦ first_categories revisions
  | c ∷ cs ↦ some (c ∷ cs)
]

-- `{page_num: x for page_num, x in d.items() if page_num in specific_pages}`
abbrev pub only_pages : {V : Type 0} → List ℕ → List (ℕ × V) → List (ℕ × V)
only_pages specific_pages = filter_by (λ item. contains item.0 specific_pages)

-- `if specific_pages:`; a set has no `items`.
pub restrict : List ℕ → Bool → Seen → Call Seen
restrict [] with_page_hash seen = ok seen
restrict (p ∷ ps) with_page_hash (all_annotated, latest_status) =
    if with_page_hash
    then ok (only_pages (p ∷ ps) all_annotated, only_pages (p ∷ ps) latest_status)
    else raises attribute_error

-- current_status[status]
abbrev pub pages_with : PageStatus → List (ℕ × PageStatus) → List ℕ
pages_with status [] = []
pages_with status ((page_num, s) ∷ latest_status) =
    let rest = pages_with status latest_status in
    if same_status s status then page_num ∷ rest else rest

-- `{str(page): all_annotated[str(page)] for page in annotated_list}`
pub hashes_of : List (ℕ × Text) → List ℕ → Call (List (ℕ × Text))
hashes_of all_annotated [] = ok []
hashes_of all_annotated (page ∷ annotated_list) = do
  hash ← elim (lookup page all_annotated) [ some hash ↦ ok hash | none ↦ raises key_error ]
  rest ← hashes_of all_annotated annotated_list
  ok ((page, hash) ∷ rest)

-- The third item of the result: a dict with the keys as strings, or a set of numbers.
pub data AnnotatedPages : Type 0 where
  hashes : List (ℕ × Text) → AnnotatedPages
  numbers : List ℕ → AnnotatedPages

-- `pages.difference(annotated)`: no number is equal to a string.
abbrev pub without_annotated : List ℕ → AnnotatedPages → List ℕ
without_annotated pages (hashes d) = pages
without_annotated pages (numbers found) = filter_by (λ page. not (contains page found)) pages

-- The tuple of the results; a set is a list whose order plays no part.
pub record PagesInfo : Type 0 where
  pub validated : List ℕ
  pub failed : List ℕ
  pub annotated : AnnotatedPages
  pub not_processed : List ℕ
  pub categories : Option (List Text)
  pub required_revision : Option Revision

-- An absent set of specific pages is empty: only its truth is tested.
unfoldable pub accumulate_pages_info :
    (task_pages : List ℕ) (revisions : List Revision) (stop_revision : Option Text)
    (specific_pages : List ℕ) (with_page_hash unique_status : Bool)
    → Call PagesInfo
unfolding visit_revisions restrict hashes_of
accumulate_pages_info task_pages revisions stop specific with_page_hash unique_status =
    let (seen, found) = visit_revisions stop ([], []) revisions in
    do
      required ← find_required stop revisions found
      (all_annotated, latest_status) ← restrict specific with_page_hash seen
      let current = pages_with PageStatus.annotated latest_status
      let validated_pages = pages_with PageStatus.validated latest_status
      let failed_pages = pages_with PageStatus.failed latest_status
      let annotated_list = if unique_status then current else keys all_annotated
      annotated_pages ←
          if with_page_hash
          then (do found ← hashes_of all_annotated annotated_list; ok (hashes found))
          else ok (numbers annotated_list)
      let unfailed =
          filter_by (λ page. not (contains page failed_pages))
            (without_annotated task_pages annotated_pages)
      ok (record {
        validated = validated_pages;
        failed = failed_pages;
        annotated = annotated_pages;
        not_processed = filter_by (λ page. not (contains page validated_pages)) unfailed;
        categories = first_categories (sort_by_date revisions);
        required_revision = required;
      })
