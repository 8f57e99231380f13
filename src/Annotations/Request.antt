-- ===== src/Annotations/Request.antt =====
-- annotation/annotation/schemas/annotations.py: DocForSaveSchema, the body of a request to save annotations.
use badgerdoc.Base.{
  ℕ, Bool, true, false, not, ◌&&◌, ◌||◌, Option, none, some, is_some, List, [], ◌∷◌, if◌then◌else◌,
  contains, any_by, number_key,
}
use badgerdoc.Annotations.Types.{Text}
use badgerdoc.Annotations.Tables.{RevisionLink, Services}
use badgerdoc.Annotations.Save.{Page, DocForSave}

-- No two of the sets have a page in common.
abbrev pub disjoint : List ℕ → List ℕ → Bool
disjoint xs ys = not (any_by (λ x. contains x ys) xs)

abbrev pub is_empty : {A : Type 0} → List A → Bool
is_empty [] = true
is_empty (x ∷ xs) = false

-- `xs or []`
abbrev pub or_empty : {A : Type 0} → Option (List A) → List A
or_empty none = []
or_empty (some xs) = xs

module _ (services : Services) where
  -- DocForSaveSchema, without links_json.
  pub record DocRequest : Type 0 where
    pub base_revision : Option Text
    pub user : Option ℕ
    pub pipeline : Option ℕ
    pub pages : Option (List (Page services))
    pub validated : Option (List ℕ)
    pub failed_validation_pages : Option (List ℕ)
    pub similar_revisions : Option (List RevisionLink)
    pub categories : Option (List Text)

  abbrev pub page_nums : List (Page services) → List ℕ
  page_nums [] = []
  page_nums (page ∷ pages) = page.page_num ∷ page_nums pages

  -- one_field_empty_other_filled_check.
  abbrev pub one_is_filled : DocRequest → Bool
  one_is_filled doc = if is_some doc.user then not (is_some doc.pipeline) else is_some doc.pipeline

  -- check_not_intersecting_pages.
  abbrev pub check_not_intersecting_pages : DocRequest → Bool
  check_not_intersecting_pages doc =
      let annotated = page_nums (or_empty doc.pages) in
      let validated = or_empty doc.validated in
      let failed = or_empty doc.failed_validation_pages in
      disjoint annotated validated && disjoint annotated failed && disjoint validated failed

  -- pages_for_save_check.
  abbrev pub pages_for_save_check : DocRequest → Bool
  pages_for_save_check doc =
      is_some doc.pages
      || is_some doc.validated
      || is_some doc.failed_validation_pages
      || is_some doc.categories

  -- The validators of the schema; FastAPI answers 422 when one fails.
  unfoldable pub is_accepted : DocRequest → Bool
  is_accepted doc =
      one_is_filled doc && check_not_intersecting_pages doc && pages_for_save_check doc

  -- check_null_fields, and `or []` where construct_annotated_doc reads the links and categories.
  abbrev pub check_null_fields : DocRequest → DocForSave services
  check_null_fields doc = record {
    base_revision = doc.base_revision;
    user = doc.user;
    pipeline = doc.pipeline;
    pages = or_empty doc.pages;
    validated = or_empty doc.validated;
    failed_validation_pages = or_empty doc.failed_validation_pages;
    similar_revisions = or_empty doc.similar_revisions;
    categories = or_empty doc.categories;
  }
