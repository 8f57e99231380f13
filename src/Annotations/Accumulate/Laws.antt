-- ===== src/Annotations/Accumulate/Laws.antt =====
-- The results of accumulate_pages_info for the two ways in which it is called.
use badgerdoc.Base.{
  ℕ, ◌≡◌, refl, ◌∙◌, ap, Bool, true, false, not, ◌&&◌, Option, none, some, is_some, List, [], ◌∷◌,
  if◌then◌else◌, contains, filter_by, arith, number_key, lookup, has_key-lookup, ok,
}
use badgerdoc.Annotations.Types.{Text, Revision}
use badgerdoc.Annotations.Accumulate.{
  PageStatus, keys, Seen, visit_revision, sort_by_date, first_categories, visit_revisions, restrict,
  pages_with, hashes, numbers, PagesInfo, accumulate_pages_info,
}
use badgerdoc.Annotations.Accumulate.Status.{
  last_status, until, is_status, contains-keys, lookup-visit_revisions, visit_revisions-IsDict,
  contains-pages_with,
}
use badgerdoc.Annotations.Accumulate.Required.{asked, find_required-asked}
use badgerdoc.Annotations.Accumulate.Hashes.{
  last_hash, lookup-visit_hashes, is_chosen, IsRestricted, restrict_hashes, hashes_of_total,
}

until-none : (rs : List Revision) → until none rs ≡ rs
until-none [] = refl
until-none (r ∷ rs) = ap (λ l. r ∷ l) (until-none rs)

pub contains-filter_by :
    (p : ℕ) (keep : ℕ → Bool) (xs : List ℕ)
    → contains p (filter_by keep xs) ≡ contains p xs && keep p
contains-filter_by p keep [] = refl
contains-filter_by p keep (x ∷ xs) = ground (arith, contains-filter_by p keep xs)

-- Each page is under the status that the last of the revisions that mention it gives, and the pages of
-- the task that no revision mentions are not processed.
pub record IsClassified (task_pages : List ℕ) (revisions : List Revision) (info : PagesInfo)
    : Type 0 where
  pub annotated_pages : List ℕ
  pub same_pages : info.annotated ≡ numbers annotated_pages
  pub annotated :
      (page : ℕ)
      → contains page annotated_pages ≡ is_status PageStatus.annotated (last_status page revisions)
  pub validated :
      (page : ℕ)
      → contains page info.validated ≡ is_status PageStatus.validated (last_status page revisions)
  pub failed :
      (page : ℕ)
      → contains page info.failed ≡ is_status PageStatus.failed (last_status page revisions)
  pub not_processed :
      (page : ℕ)
      → contains page info.not_processed
        ≡ contains page task_pages && not (is_some (last_status page revisions))

never_found : (seen : Seen) (rs : List Revision) → (visit_revisions none seen rs).1 ≡ none
unfolding visit_revisions
never_found seen [] = refl
never_found seen (r ∷ rs) = never_found (visit_revision seen r) rs

latest_of : (revisions : List Revision) → List (ℕ × PageStatus)
latest_of revisions = (visit_revisions none ([], []) revisions).0.1

latest_of-pages_with :
    (s : PageStatus) (page : ℕ) (revisions : List Revision)
    → contains page (pages_with s (latest_of revisions)) ≡ is_status s (last_status page revisions)
unfolding latest_of
latest_of-pages_with s page revisions =
    contains-pages_with s page _ (visit_revisions-IsDict none ([], []) revisions tt)
    ∙ ap (is_status s) (
        ground (
          arith,
          lookup-visit_revisions none page ([], []) revisions,
          ap (last_status page) (until-none revisions),
        ))

one_status :
    (s : Option PageStatus)
    → not (is_status PageStatus.annotated s)
        && not (is_status PageStatus.failed s)
        && not (is_status PageStatus.validated s)
      ≡ not (is_some s)
one_status none = refl
one_status (some PageStatus.annotated) = refl
one_status (some PageStatus.validated) = refl
one_status (some PageStatus.failed) = refl

-- With `unique_status`, and neither a revision to stop at, nor specific pages, nor hashes,
-- accumulate_pages_info returns and puts each page under one status, that of the last revision that
-- mentions it.
pub accumulate_pages_info-IsClassified :
    (task_pages : List ℕ) (revisions : List Revision)
    → (info : PagesInfo) × (accumulate_pages_info task_pages revisions none [] false true ≡ ok info)
      × IsClassified task_pages revisions info
unfolding accumulate_pages_info restrict latest_of
accumulate_pages_info-IsClassified task_pages revisions =
    let latest_status = latest_of revisions in
    let found = pages_with PageStatus.annotated latest_status in
    let failed_pages = pages_with PageStatus.failed latest_status in
    let validated_pages = pages_with PageStatus.validated latest_status in
    let unannotated = filter_by (λ page. not (contains page found)) task_pages in
    let unfailed = filter_by (λ page. not (contains page failed_pages)) unannotated in
    (
      record {
        validated = validated_pages;
        failed = failed_pages;
        annotated = numbers found;
        not_processed = filter_by (λ page. not (contains page validated_pages)) unfailed;
        categories = first_categories (sort_by_date revisions);
        required_revision = none;
      },
      rw (never_found ([], []) revisions) refl,
      record {
        annotated_pages = found;
        same_pages = refl;
        annotated = λ page. latest_of-pages_with PageStatus.annotated page revisions;
        validated = λ page. latest_of-pages_with PageStatus.validated page revisions;
        failed = λ page. latest_of-pages_with PageStatus.failed page revisions;
        not_processed = λ page. ground (
          arith,
          contains-filter_by page (λ p. not (contains p validated_pages)) unfailed,
          contains-filter_by page (λ p. not (contains p failed_pages)) unannotated,
          contains-filter_by page (λ p. not (contains p found)) task_pages,
          latest_of-pages_with PageStatus.annotated page revisions,
          latest_of-pages_with PageStatus.validated page revisions,
          latest_of-pages_with PageStatus.failed page revisions,
          one_status (last_status page revisions),
        );
      },
    )

-- With hashes, what is read up to the revision that is asked for: the hash of each chosen page in the
-- last revision that annotates it, and the status of each page.
pub record IsHashed (stop : Option Text) (specific : List ℕ) (revisions : List Revision)
    (info : PagesInfo) : Type 0 where
  pub hash_of : List (ℕ × Text)
  pub same_hashes : info.annotated ≡ hashes hash_of
  pub hashed :
      (page : ℕ)
      → lookup page hash_of
        ≡ (if is_chosen specific page then last_hash page (until stop revisions) else none)
  pub validated :
      (page : ℕ)
      → contains page info.validated
        ≡ is_chosen specific page
          && is_status PageStatus.validated (last_status page (until stop revisions))
  pub failed :
      (page : ℕ)
      → contains page info.failed
        ≡ is_chosen specific page
          && is_status PageStatus.failed (last_status page (until stop revisions))
  pub required : info.required_revision ≡ asked stop revisions

restricted-pages_with :
    (s : PageStatus) (stop : Option Text) (specific : List ℕ) (revisions : List Revision)
    (left : Seen)
    → IsRestricted specific (visit_revisions stop ([], []) revisions).0 left
    → (page : ℕ)
    → contains page (pages_with s left.1)
      ≡ is_chosen specific page && is_status s (last_status page (until stop revisions))
restricted-pages_with s stop specific revisions left l page = ground (
  arith,
  contains-pages_with s page left.1 l.dict,
  l.status page,
  lookup-visit_revisions stop page ([], []) revisions,
)

-- With hashes, and a revision at all, accumulate_pages_info neither misses a hash nor a last revision; it
-- returns the hashes and the statuses at the revision that is asked for, and that revision.
pub accumulate_pages_info-IsHashed :
    (stop : Text) (specific : List ℕ) (r : Revision) (rs : List Revision)
    → (info : PagesInfo) × (accumulate_pages_info [] (r ∷ rs) (some stop) specific true false
        ≡ ok info)
      × IsHashed (some stop) specific (r ∷ rs) info
unfolding accumulate_pages_info
accumulate_pages_info-IsHashed stop specific r rs =
    let all = r ∷ rs in
    let seen = (visit_revisions (some stop) ([], []) all).0 in
    let required = find_required-asked stop ([], []) r rs in
    let (left, returned, l) =
      restrict_hashes specific seen (visit_revisions-IsDict (some stop) ([], []) all tt) in
    let (found, hashed, h) =
      hashes_of_total left.0 (keys left.0) (λ p c. ground (arith, c, contains-keys p left.0)) in
    (
      record {
        validated = pages_with PageStatus.validated left.1;
        failed = pages_with PageStatus.failed left.1;
        annotated = hashes found;
        not_processed = [];
        categories = first_categories (sort_by_date all);
        required_revision = asked (some stop) all;
      },
      rw required (rw returned (rw hashed refl)),
      record {
        hash_of = found;
        same_hashes = refl;
        hashed = λ page. ground (
          arith,
          h page,
          contains-keys page left.0,
          has_key-lookup page left.0,
          l.annotated page,
          lookup-visit_hashes (some stop) page ([], []) all,
        );
        validated = restricted-pages_with PageStatus.validated (some stop) specific all left l;
        failed = restricted-pages_with PageStatus.failed (some stop) specific all left l;
        required = refl;
      },
    )
