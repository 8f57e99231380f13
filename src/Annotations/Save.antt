-- ===== src/Annotations/Save.antt =====
-- annotation/annotation/annotations/main.py: construct_annotated_doc and what it calls, which save a
-- new revision of a file's annotations in the database and its pages in the object storage.
pub mod Identity
pub mod Laws
use badgerdoc.Base.{
  ℕ, Bool, true, false, not, ◌&&◌, Option, none, some, is_some, List, [], ◌∷◌, ◌++◌, if◌then◌else◌,
  ◌==◌, leb, length, contains, filter_by, any_by, number_key, lookup, put, update, Call, ok, raises,
  value_error, attribute_error, service_error, key_error,
}
use badgerdoc.Actions.{Action, return, raise, raise_if, lift, get, modify, ◌>>=◌, ◌>>◌}
use badgerdoc.Distribution.Types.{TaskStatus}
use badgerdoc.Distribution.Run.{ValidationType}
use badgerdoc.Annotations.Tables.{
  RevisionLink, DocumentLink, Services, ObjectPath, Manifest, TaskRow, JobRow, Store, Author,
}
use badgerdoc.Annotations.Types.{Text, same_text, Revision}
use badgerdoc.Annotations.Accumulate.{
  AnnotatedPages, hashes, numbers, PagesInfo, accumulate_pages_info,
}

-- `sorted(list(numbers))`
abbrev pub insert_number : ℕ → List ℕ → List ℕ
insert_number n [] = n ∷ []
insert_number n (m ∷ ns) =
    let later = insert_number n ns in if leb n m then n ∷ m ∷ ns else m ∷ later

abbrev pub sort_numbers : List ℕ → List ℕ
sort_numbers [] = []
sort_numbers (n ∷ ns) = insert_number n (sort_numbers ns)

-- `set(xs) == set(ys)`
abbrev pub subset : List ℕ → List ℕ → Bool
subset [] ys = true
subset (x ∷ xs) ys = let rest = subset xs ys in if contains x ys then rest else false

abbrev pub same_set : List ℕ → List ℕ → Bool
same_set xs ys = subset xs ys && subset ys xs

-- `==` on dicts: as many items, and each of the first in the second.
abbrev pub items_in : List (ℕ × Text) → List (ℕ × Text) → Bool
items_in [] e = true
items_in ((k, v) ∷ d) e =
    let rest = items_in d e in
    elim (lookup k e) [ none ↦ false | some w ↦ if same_text v w then rest else false ]

abbrev pub same_dict : List (ℕ × Text) → List (ℕ × Text) → Bool
same_dict d e = length d == length e && items_in d e

-- `list == categories or []`, where `categories` is a set: a list equals a list, never a set.
abbrev pub same_categories : List Text → List Text → Bool
same_categories [] [] = true
same_categories (c ∷ cs) [] = false
same_categories old (c ∷ cs) = false

-- `latest_doc` is the row of the database, `new_doc` holds the set of the request.
unfoldable pub check_docs_identity : Option Revision → Revision → Bool
check_docs_identity none new_doc = false
check_docs_identity (some latest_doc) new_doc =
    same_dict latest_doc.pages new_doc.pages
    && same_set latest_doc.validated new_doc.validated
    && same_set latest_doc.failed_validation_pages new_doc.failed_validation_pages
    && same_categories latest_doc.categories new_doc.categories

-- `difference`
abbrev pub extra : List ℕ → List ℕ → List ℕ
extra pages task_pages = filter_by (λ page. not (contains page task_pages)) pages

abbrev pub construct_document_links : Revision → List RevisionLink → List DocumentLink
construct_document_links doc [] = []
construct_document_links doc (link ∷ links) =
    record {
      original_revision = doc.revision;
      original_file_id = doc.file_id;
      original_job_id = doc.job_id;
      similar_revision = link.revision;
      similar_file_id = link.file_id;
      similar_job_id = link.job_id;
      label = link.label;
    }
    ∷ construct_document_links doc links

-- The revisions of a file in a job, in the order of their dates.
abbrev pub revisions_of : ℕ → ℕ → List Revision → List Revision
revisions_of job_id file_id = filter_by (λ r. r.file_id == file_id && r.job_id == job_id)

abbrev pub hashes_in : AnnotatedPages → List (ℕ × Text)
hashes_in (hashes d) = d
hashes_in (numbers ns) = []

abbrev pub add_doc : Revision → List DocumentLink → Store → Store
add_doc doc document_links store = record store {
  docs = store.docs ++ doc ∷ [];
  links = store.links ++ document_links;
}

abbrev pub put_object : ObjectPath → Text → Store → Store
put_object path body store = record store { objects = (path, body) ∷ store.objects }

-- latest_doc, if check_docs_identity finds the new revision identical to it.
abbrev pub identical_doc : Option Revision → Revision → Option Revision
identical_doc none new_doc = none
identical_doc (some latest_doc) new_doc =
    if check_docs_identity (some latest_doc) new_doc then some latest_doc else none

module _ (services : Services) where
  open services use {
    Content, dumps_page, dumps_numbers, encode, sha1, commit_allowed, connects, s3_prefix,
  }

  -- PageSchema.
  pub record Page : Type 0 where
    pub page_num : ℕ
    pub content : Content

  -- DocForSaveSchema behind check_null_fields.
  pub record DocForSave : Type 0 where
    pub base_revision : Option Text
    pub user : Option ℕ
    pub pipeline : Option ℕ
    pub pages : List Page
    pub validated : List ℕ
    pub failed_validation_pages : List ℕ
    pub similar_revisions : List RevisionLink
    pub categories : List Text

  -- The loop of get_pages_sha: the dict of the hashes and the bytes that are collected.
  abbrev pub hash_pages : List Page → List (ℕ × Text) → List ℕ → List (ℕ × Text) × List ℕ
  hash_pages [] pages_sha b_pages = (pages_sha, b_pages)
  hash_pages (page ∷ pages) pages_sha b_pages =
      let b_page = encode (dumps_page page.page_num page.content) in
      hash_pages pages (put page.page_num (sha1 b_page) pages_sha) (b_pages ++ b_page)

  abbrev pub encode_base : Option Text → List ℕ
  encode_base none = []
  encode_base (some base_revision) = encode base_revision

  abbrev pub get_pages_sha : List Page → Option Text → List ℕ → List ℕ → List (ℕ × Text) × Text
  get_pages_sha pages base_revision validated failed =
      let (pages_sha, b_pages) = hash_pages pages [] (encode_base base_revision) in
      let b_validated = encode (dumps_numbers (sort_numbers validated)) in
      let b_failed = encode (dumps_numbers (sort_numbers failed)) in
      (pages_sha, sha1 ((b_pages ++ b_validated) ++ b_failed))

  -- `pages_sha[str(page.page_num)]` raises KeyError for a page without a hash.
  abbrev pub upload_page :
      Page → Option Text → Revision → Text → Action Store (Unit {0}) → Action Store (Unit {0})
  upload_page page none doc bucket_name rest = raise key_error
  upload_page page (some name) doc bucket_name rest =
      modify (
        put_object
          (record { bucket = bucket_name; job_id = doc.job_id; file_id = doc.file_id; name = name })
          (dumps_page page.page_num page.content))
      >> rest

  unfoldable pub upload_pages_to_minio :
      List Page → List (ℕ × Text) → Revision → (bucket_name : Text) → Action Store (Unit {0})
  upload_pages_to_minio [] pages_sha doc bucket_name = return tt
  upload_pages_to_minio (page ∷ pages) pages_sha doc bucket_name =
      upload_page page (lookup page.page_num pages_sha) doc bucket_name
        (upload_pages_to_minio pages pages_sha doc bucket_name)

  unfoldable pub create_manifest_json : Revision → Action Store (Unit {0})
  create_manifest_json doc = do
    store ← get
    info ← lift (
        accumulate_pages_info [] (revisions_of doc.job_id doc.file_id store.docs ++ doc ∷ []) none
          [] true false)
    modify (λ s. record s {
      manifests =
          record {
            doc = doc;
            pages = hashes_in info.annotated;
            validated = info.validated;
            failed_validation_pages = info.failed;
          }
          ∷ s.manifests;
    })

  -- S3_PREFIX; an empty one is none.
  abbrev pub convert_bucket_name_if_s3prefix : Text → Text
  convert_bucket_name_if_s3prefix bucket_name = elim s3_prefix [
    | [] ↦ bucket_name
    | c ∷ prefix ↦ (c ∷ prefix) ++ 45 ∷ bucket_name
  ]

  -- The hashes and the id of the new revision. On a merge the hashes of the latest revision are written
  -- over those of the request.
  abbrev pub revision_hashes :
      DocForSave → Option Revision → (is_latest : Bool) → Call (List (ℕ × Text) × Text)
  revision_hashes doc latest_doc true =
      ok (get_pages_sha doc.pages doc.base_revision doc.validated doc.failed_validation_pages)
  revision_hashes doc none false = raises attribute_error
  revision_hashes doc (some latest_doc) false =
      let (pages_sha, revision) =
        get_pages_sha doc.pages (some latest_doc.revision) doc.validated
          doc.failed_validation_pages in
      ok (update pages_sha latest_doc.pages, revision)

  abbrev pub new_revision : Author → DocForSave → List (ℕ × Text) → Text → Revision
  new_revision author doc pages revision = record {
    revision = revision;
    file_id = author.file_id;
    job_id = author.job_id;
    user = author.user_id;
    pipeline = author.pipeline_id;
    date = author.date;
    pages = pages;
    validated = doc.validated;
    failed_validation_pages = doc.failed_validation_pages;
    tenant = author.tenant;
    task_id = author.task_id;
    categories = doc.categories;
  }

  -- From db.add to the end; a commit that is not allowed is rolled back.
  unfoldable pub save_revision : DocForSave → Revision → Action Store (Unit {0})
  unfolding upload_pages_to_minio create_manifest_json
  save_revision doc annotated_doc = do
    let document_links = construct_document_links annotated_doc doc.similar_revisions
    let bucket_name = convert_bucket_name_if_s3prefix annotated_doc.tenant
    store ← get
    raise_if (not (commit_allowed store.docs annotated_doc document_links)) value_error
    modify (add_doc annotated_doc document_links)
    raise_if (not (connects bucket_name)) service_error
    upload_pages_to_minio doc.pages annotated_doc.pages annotated_doc bucket_name
    create_manifest_json annotated_doc

  abbrev pub save_unless : DocForSave → Revision → Option Revision → Action Store (Revision × Bool)
  save_unless doc annotated_doc none =
      save_revision doc annotated_doc >> return (annotated_doc, true)
  save_unless doc annotated_doc (some latest_doc) = return (latest_doc, false)

  -- The revision that is returned, and whether it is a new object and not latest_doc.
  unfoldable pub construct_annotated_doc :
      Author → DocForSave → Option Revision → (is_latest : Bool) → Action Store (Revision × Bool)
  construct_annotated_doc author doc latest_doc is_latest = do
    (pages, revision) ← lift (revision_hashes doc latest_doc is_latest)
    let annotated_doc = new_revision author doc pages revision
    save_unless doc annotated_doc (identical_doc latest_doc annotated_doc)
