-- ===== src/Annotations/Read.antt =====
-- annotation/annotation/annotations/main.py and resources.py: what the handlers that read annotations
-- load from the object storage.
pub mod Laws
use badgerdoc.Base.{
  ℕ, Bool, true, false, not, ◌&&◌, Option, none, some, List, [], ◌∷◌, ◌++◌, if◌then◌else◌, ◌==◌,
  filter_by, number_key, lookup, has_key, Call, ok, raises, ◌>>=◌, service_error, http_exception,
}
use badgerdoc.Distribution.Run.{extensive_coverage}
use badgerdoc.Annotations.Types.{Text, same_text, latest, Revision}
use badgerdoc.Annotations.Accumulate.{PagesInfo, accumulate_pages_info}
use badgerdoc.Annotations.Pages.{PageEntry, find_latest_revision_pages, find_all_revisions_pages}
use badgerdoc.Annotations.Tables.{RevisionLink, DocumentLink, Services, ObjectPath, JobRow, Store}
use badgerdoc.Annotations.Save.{hashes_in, convert_bucket_name_if_s3prefix}
use badgerdoc.Annotations.Post.{last_of, first_of, find_job, is_of, is_visible}

-- The newest object at a path.
abbrev pub same_path : ObjectPath → ObjectPath → Bool
same_path a b =
    same_text a.bucket b.bucket
    && a.job_id == b.job_id
    && a.file_id == b.file_id
    && same_text a.name b.name

abbrev pub find_object : ObjectPath → List (ObjectPath × Text) → Option Text
find_object path [] = none
find_object path ((p, body) ∷ objects) =
    if same_path p path then some body else find_object path objects

abbrev pub or_none : {A : Type 0} → List A → Option (List A)
or_none [] = none
or_none (x ∷ xs) = some (x ∷ xs)

-- The link's other revision.
abbrev pub similar_link : DocumentLink → RevisionLink
similar_link link = record {
  revision = link.similar_revision;
  job_id = link.similar_job_id;
  file_id = link.similar_file_id;
  label = link.label;
}

abbrev pub links_of : Revision → List DocumentLink → List RevisionLink
links_of r [] = []
links_of r (link ∷ links) =
    let rest = links_of r links in
    if same_text link.original_revision r.revision
      && link.original_file_id == r.file_id
      && link.original_job_id == r.job_id
    then similar_link link ∷ rest
    else rest

module _ (services : Services) where
  open services use {Content, empty_content, loads_page, connects, in_}

  -- A page's number and its size and objects.
  abbrev pub LoadedPage : Type 0
  LoadedPage = ℕ × Content

  -- A loaded page with the number, the user and the entry that load_page writes over it.
  pub record UserPage : Type 0 where
    pub page_num : ℕ
    pub content : Content
    pub user_id : Option ℕ
    pub entry : PageEntry

  -- `s3_resource.Object(...).get()`, decoded; an object that is not there raises.
  abbrev pub load_object : List (ObjectPath × Text) → ObjectPath → Call LoadedPage
  load_object objects path = elim (find_object path objects) [
    | none ↦ raises service_error
    | some body ↦ loads_page body
  ]

  -- load_page for a particular revision.
  abbrev pub load_page :
      List (ObjectPath × Text)
      → (bucket_name : Text) (job_id file_id page_num : ℕ) → (page_id : Option Text)
      → Call LoadedPage
  load_page objects bucket_name job_id file_id page_num none = ok (page_num, empty_content)
  load_page objects bucket_name job_id file_id page_num (some []) = ok (page_num, empty_content)
  load_page objects bucket_name job_id file_id page_num (some (c ∷ page_id)) =
      load_object objects
        (record { bucket = bucket_name; job_id = job_id; file_id = file_id; name = c ∷ page_id })

  -- load_page otherwise.
  abbrev pub load_user_page :
      List (ObjectPath × Text) → Text → ℕ → Option ℕ × PageEntry → Call UserPage
  load_user_page objects bucket_name page_num (user_id, entry) = do
    loaded ← load_page objects bucket_name entry.job_id entry.file_id page_num entry.page_id
    ok (record { page_num = page_num; content = loaded.1; user_id = user_id; entry = entry })

  -- The loops of load_all_revisions_pages and load_latest_revision_pages.
  abbrev pub load_entries :
      List (ObjectPath × Text) → Text → ℕ → List (Option ℕ × PageEntry) → Call (List UserPage)
  load_entries objects bucket_name page_num [] = ok []
  load_entries objects bucket_name page_num (entry ∷ page_revisions) = do
    page ← load_user_page objects bucket_name page_num entry
    rest ← load_entries objects bucket_name page_num page_revisions
    ok (page ∷ rest)

  abbrev pub load_each :
      List (ObjectPath × Text)
      → Text
      → List (ℕ × List (Option ℕ × PageEntry))
      → Call (List (ℕ × List UserPage))
  load_each objects bucket_name [] = ok []
  load_each objects bucket_name ((page_num, page_revisions) ∷ pages) = do
    loaded_pages ← load_entries objects bucket_name page_num page_revisions
    rest ← load_each objects bucket_name pages
    ok ((page_num, loaded_pages) ∷ rest)

  -- connect_s3.
  abbrev pub connect_s3 : Text → Call (Unit {0})
  connect_s3 bucket_name = if connects bucket_name then ok tt else raises service_error

  abbrev pub load_revisions_pages :
      Store → List (ℕ × List (Option ℕ × PageEntry)) → Text → Call (List (ℕ × List UserPage))
  load_revisions_pages store pages tenant = do
    let bucket_name = convert_bucket_name_if_s3prefix services tenant
    _ ← connect_s3 bucket_name
    load_each store.objects bucket_name pages

  -- load_annotated_pages_for_particular_rev.
  abbrev pub load_annotated_pages :
      List (ObjectPath × Text) → Text → Revision → List (ℕ × Text) → Call (List LoadedPage)
  load_annotated_pages objects bucket_name revision [] = ok []
  load_annotated_pages objects bucket_name revision ((page_num, page_id) ∷ pages) = do
    page ← load_page objects bucket_name revision.job_id revision.file_id page_num (some page_id)
    rest ← load_annotated_pages objects bucket_name revision pages
    ok (page ∷ rest)

  -- load_validated_pages_for_particular_rev.
  abbrev pub load_validated_pages : Revision → List ℕ → List LoadedPage
  load_validated_pages revision [] = []
  load_validated_pages revision (page_num ∷ validated) =
      let rest = load_validated_pages revision validated in
      if has_key page_num revision.pages then rest else (page_num, empty_content) ∷ rest

  -- ParticularRevisionSchema, without links_json.
  pub record ParticularRevision : Type 0 where
    pub revision : Option Text
    pub user : Option ℕ
    pub pipeline : Option ℕ
    pub date : Option ℕ
    pub pages : List LoadedPage
    pub validated : List ℕ
    pub failed_validation_pages : List ℕ
    pub categories : Option (List Text)
    pub similar_revisions : Option (List RevisionLink)

  abbrev pub no_revision : ParticularRevision
  no_revision = record {
    revision = none;
    user = none;
    pipeline = none;
    date = none;
    pages = [];
    validated = [];
    failed_validation_pages = [];
    categories = none;
    similar_revisions = none;
  }

  unfoldable pub construct_particular_rev_response :
      Store → Revision → Option (List Text) → Call ParticularRevision
  construct_particular_rev_response store revision categories = do
    let bucket_name = convert_bucket_name_if_s3prefix services revision.tenant
    _ ← connect_s3 bucket_name
    annotated ← load_annotated_pages store.objects bucket_name revision revision.pages
    ok (record {
      revision = some revision.revision;
      user = revision.user;
      pipeline = revision.pipeline;
      date = some revision.date;
      pages = annotated ++ load_validated_pages revision revision.validated;
      validated = revision.validated;
      failed_validation_pages = revision.failed_validation_pages;
      categories = categories;
      similar_revisions = or_none (links_of revision store.links);
    })
