-- ===== src/Annotations/Save/Laws.antt =====
-- What construct_annotated_doc saves and returns.
use badgerdoc.Base.{
  subst, lookup-update, ℕ, ◌≡◌, refl, ◌∙◌, ap, sym, Bool, true, false, Option, none, some, List, [],
  ◌∷◌, ◌++◌, number_key, lookup, update, Bool-cases, inl, inr, Call, ok, raises, arith,
}
use badgerdoc.Actions.{
  Action, Holds, returned, raised, >>=-Holds, lift-Holds, raise_if-Holds, weaken-Holds,
}
use badgerdoc.Annotations.Types.{Text, Revision}
use badgerdoc.Annotations.Save.Identity.{
  IsSameDoc, check_docs_identity-IsSameDoc, IsSameDoc-check_docs_identity, expected_hash,
  lookup-hash_pages,
}
use badgerdoc.Annotations.Tables.{Services, DocumentLink, Store, Author, ObjectPath}
use badgerdoc.Annotations.Save.{
  Page, add_doc, DocForSave, check_docs_identity, encode_base, hash_pages, put_object, upload_page,
  upload_pages_to_minio, create_manifest_json, save_revision, revision_hashes, new_revision,
  identical_doc, save_unless, construct_annotated_doc,
}

-- The database but for the storage, the manifests and the messages.
pub record IsSame (before after : Store) : Type 0 where
  pub docs : after.docs ≡ before.docs
  pub tasks : after.tasks ≡ before.tasks
  pub jobs : after.jobs ≡ before.jobs

IsSame_trans : {a b c : Store} → IsSame a b → IsSame b c → IsSame a c
IsSame_trans h g = record {
  docs = g.docs ∙ h.docs;
  tasks = g.tasks ∙ h.tasks;
  jobs = g.jobs ∙ h.jobs;
}

same : (s : Store) → IsSame s s
same s = record { docs = refl; tasks = refl; jobs = refl }

-- An object more in the storage changes none of the tables.
untouched :
    {path : ObjectPath} {body : Text} {a b : Store} → IsSame (put_object path body a) b → IsSame a b
untouched h = record { docs = h.docs; tasks = h.tasks; jobs = h.jobs }

abbrev pages_of : Call (List (ℕ × Text) × Text) → List (ℕ × Text)
pages_of (ok found) = found.0
pages_of (raises e) = []

identical_doc-some :
    (latest_doc : Option Revision) (r l : Revision)
    → identical_doc latest_doc r ≡ some l
    → (latest_doc ≡ some l) × IsSameDoc l r
identical_doc-some none r l h = ground (arith, h)
identical_doc-some (some d) r l h = elim (Bool-cases (check_docs_identity (some d) r)) [
  | inl e ↦
      let found : d ≡ l = ground (arith, h, e) in
      (
        ap some found,
        check_docs_identity-IsSameDoc l r
            (subst (λ (x : Revision). check_docs_identity (some x) r ≡ true) found e),
      )
  | inr e ↦ absurd (ground (arith, h, e))
]

identical_doc-none :
    (latest_doc : Option Revision) (r l : Revision)
    → identical_doc latest_doc r ≡ none
    → latest_doc ≡ some l
    → ¬ IsSameDoc l r
identical_doc-none none r l h g s = absurd (ground (arith, g))
identical_doc-none (some d) r l h g s =
    let found : d ≡ l = ground (arith, g) in
    let same_docs =
      subst (λ (x : Revision). check_docs_identity (some x) r ≡ true) (sym found)
        (IsSameDoc-check_docs_identity l r s) in
    absurd (ground (arith, h, same_docs))

module _ (services : Services) where
  upload_page-IsSame :
      (page : Page services) (found : Option Text) (doc : Revision) (bucket : Text)
      → (rest : Action Store (Unit {0})) → ((s : Store) → Holds (λ _. IsSame s) (IsSame s) (rest s))
      → (s : Store)
      → Holds (λ _. IsSame s) (IsSame s) (upload_page services page found doc bucket rest s)
  upload_page-IsSame page none doc bucket rest h s = raised (same s)
  upload_page-IsSame page (some name) doc bucket rest h s =
      >>=-Holds _ _ _ (returned (weaken-Holds (λ _ a g. untouched g) (λ a g. untouched g) (h _)))

  upload_pages_to_minio-IsSame :
      (pages : List (Page services)) (pages_sha : List (ℕ × Text)) (doc : Revision) (bucket : Text)
      → (s : Store)
      → Holds
          (λ _. IsSame s)
          (IsSame s)
          (upload_pages_to_minio services pages pages_sha doc bucket s)
  unfolding upload_pages_to_minio
  upload_pages_to_minio-IsSame [] pages_sha doc bucket s = returned (same s)
  upload_pages_to_minio-IsSame (page ∷ pages) pages_sha doc bucket s =
      upload_page-IsSame page (lookup page.page_num pages_sha) doc bucket _
        (upload_pages_to_minio-IsSame pages pages_sha doc bucket) s

  create_manifest_json-IsSame :
      (doc : Revision) (s : Store)
      → Holds (λ _. IsSame s) (IsSame s) (create_manifest_json services doc s)
  unfolding create_manifest_json
  create_manifest_json-IsSame doc s = >>=-Holds _ _ _ (
      returned (
        >>=-Holds _ _ _ (
          lift-Holds _ s (λ info h. returned (record { docs = refl; tasks = refl; jobs = refl }))
            (same s))))

  -- The revision is there, the tasks and the jobs are the same.
  pub record IsAdded (r : Revision) (before after : Store) : Type 0 where
    pub docs : after.docs ≡ before.docs ++ r ∷ []
    pub tasks : after.tasks ≡ before.tasks
    pub jobs : after.jobs ≡ before.jobs

  IsAdded-IsSame : {r : Revision} {a b c : Store} → IsAdded r a b → IsSame b c → IsAdded r a c
  IsAdded-IsSame h g = record {
    docs = g.docs ∙ h.docs;
    tasks = g.tasks ∙ h.tasks;
    jobs = g.jobs ∙ h.jobs;
  }

  -- After an exception the new revision may be there: what fails after the commit does not undo it.
  pub data IsAttempted (r : Revision) (before after : Store) : Type 0 where
    unchanged : IsSame before after → IsAttempted r before after
    committed : IsAdded r before after → IsAttempted r before after

  save_revision-IsAdded :
      (doc : DocForSave services) (r : Revision) (s : Store)
      → Holds (λ _. IsAdded r s) (IsAttempted r s) (save_revision services doc r s)
  unfolding save_revision
  save_revision-IsAdded doc r s =
      let added : (links : List DocumentLink) → IsAdded r s (add_doc r links s) =
        λ links. record { docs = refl; tasks = refl; jobs = refl } in
      >>=-Holds _ _ _ (
        returned (
          >>=-Holds _ _ _ (
            raise_if-Holds _ _ s
              (λ allowed. >>=-Holds _ _ _ (
                returned (
                  >>=-Holds _ _ _ (
                    raise_if-Holds _ _ _
                      (λ connected. >>=-Holds _ _ _ (
                        weaken-Holds
                          (λ _ a h.
                            weaken-Holds (λ _ b g. IsAdded-IsSame (added _) (IsSame_trans h g))
                              (λ b g. committed (IsAdded-IsSame (added _) (IsSame_trans h g)))
                              (create_manifest_json-IsSame r a))
                          (λ a h. committed (IsAdded-IsSame (added _) h))
                          (upload_pages_to_minio-IsSame doc.pages r.pages r _ _)))
                      (committed (added _))))))
              (unchanged (same s)))))

  -- Whose revision it is, what it validates, and the hashes of its pages: of each page of the request the one of
  -- its JSON, and on a merge those of the latest revision, which go first.
  pub record IsNew (author : Author) (doc : DocForSave services) (latest_doc : Option Revision)
      (is_latest : Bool) (r : Revision) : Type 0 where
    pub user : r.user ≡ author.user_id
    pub pipeline : r.pipeline ≡ author.pipeline_id
    pub task_id : r.task_id ≡ author.task_id
    pub job_id : r.job_id ≡ author.job_id
    pub file_id : r.file_id ≡ author.file_id
    pub tenant : r.tenant ≡ author.tenant
    pub validated : r.validated ≡ doc.validated
    pub failed : r.failed_validation_pages ≡ doc.failed_validation_pages
    pub date : r.date ≡ author.date
    pub categories : r.categories ≡ doc.categories
    pub pages : (p : ℕ) → lookup p r.pages ≡ expected_hash services p doc latest_doc is_latest

  -- Either a new revision is added to the others, and it differs from the latest one; or nothing is changed and
  -- the latest one is returned, which has the same pages, statuses and no categories.
  pub data IsConstructed (author : Author) (doc : DocForSave services)
      (latest_doc : Option Revision) (is_latest : Bool) (before after : Store)
      : Revision × Bool → Type 0 where
    constructed :
        {r : Revision}
        → IsNew author doc latest_doc is_latest r
        → ((l : Revision) → latest_doc ≡ some l → ¬ IsSameDoc l r)
        → IsAdded r before after
        → IsConstructed author doc latest_doc is_latest before after (r, true)
    identical :
        {l r : Revision}
        → latest_doc ≡ some l
        → IsNew author doc latest_doc is_latest r
        → IsSameDoc l r
        → IsSame before after
        → IsConstructed author doc latest_doc is_latest before after (l, false)

  -- After an exception nothing is changed, or a new revision is added without its pages or manifest.
  pub data IsFailed (author : Author) (doc : DocForSave services) (latest_doc : Option Revision)
      (is_latest : Bool) (before after : Store) : Type 0 where
    failed_before : IsSame before after → IsFailed author doc latest_doc is_latest before after
    failed_after :
        {r : Revision}
        → IsNew author doc latest_doc is_latest r
        → IsAdded r before after
        → IsFailed author doc latest_doc is_latest before after

  IsAttempted-IsFailed :
      {author : Author} {doc : DocForSave services} {latest_doc : Option Revision}
      {is_latest : Bool}
      → {r : Revision} → IsNew author doc latest_doc is_latest r
      → (before after : Store) → IsAttempted r before after
      → IsFailed author doc latest_doc is_latest before after
  IsAttempted-IsFailed n before after (unchanged h) = failed_before h
  IsAttempted-IsFailed n before after (committed h) = failed_after n h

  module _ (author : Author) (doc : DocForSave services) (latest_doc : Option Revision)
      (is_latest : Bool) where
    Outcome : Store → Call (Revision × Bool) × Store → Type 0
    Outcome s =
        Holds (λ result after. IsConstructed author doc latest_doc is_latest s after result)
          (IsFailed author doc latest_doc is_latest s)

    save_unless-Outcome :
        (r : Revision) (o : Option Revision) (s : Store)
        → IsNew author doc latest_doc is_latest r
        → ((l : Revision) → o ≡ some l → (latest_doc ≡ some l) × IsSameDoc l r)
        → (o ≡ none → (l : Revision) → latest_doc ≡ some l → ¬ IsSameDoc l r)
        → Outcome s (save_unless services doc r o s)
    unfolding Outcome
    save_unless-Outcome r none s n h d = >>=-Holds _ _ _ (
        weaken-Holds (λ _ a g. returned (constructed n (d refl) g))
          (λ a g. IsAttempted-IsFailed n s a g) (save_revision-IsAdded doc r s))
    save_unless-Outcome r (some l) s n h d =
        returned (identical (h l refl).0 n (h l refl).1 (same s))

  revision_hashes-expected :
      (p : ℕ) (doc : DocForSave services) (latest_doc : Option Revision) (is_latest : Bool)
      → (found : List (ℕ × Text) × Text)
      → revision_hashes services doc latest_doc is_latest ≡ ok found
      → lookup p found.0 ≡ expected_hash services p doc latest_doc is_latest
  revision_hashes-expected p doc latest_doc true (d, t) h =
      let hashed = hash_pages services doc.pages [] (encode_base services doc.base_revision) in
      let same_found : d ≡ hashed.0 = ap pages_of (sym h) in
      rw same_found (
        ground (
          arith,
          lookup-hash_pages services p doc.pages [] (encode_base services doc.base_revision),
        ))
  revision_hashes-expected p doc none false (d, t) h = ground (arith, h)
  revision_hashes-expected p doc (some latest_doc) false (d, t) h =
      let base = encode_base services (some latest_doc.revision) in
      let hashed = hash_pages services doc.pages [] base in
      let same_found : d ≡ update hashed.0 latest_doc.pages = ap pages_of (sym h) in
      rw same_found (
        ground (
          arith,
          lookup-update p hashed.0 latest_doc.pages,
          lookup-hash_pages services p doc.pages [] base,
        ))

  -- A revision with the pages and the hash of revision_hashes.
  new_revision-IsNew :
      (author : Author) (doc : DocForSave services) (latest_doc : Option Revision)
      (is_latest : Bool)
      → (found : List (ℕ × Text) × Text)
      → revision_hashes services doc latest_doc is_latest ≡ ok found
      → IsNew author doc latest_doc is_latest (new_revision services author doc found.0 found.1)
  new_revision-IsNew author doc latest_doc is_latest found h = record {
    user = refl;
    pipeline = refl;
    task_id = refl;
    job_id = refl;
    file_id = refl;
    tenant = refl;
    validated = refl;
    failed = refl;
    date = refl;
    categories = refl;
    pages = λ p. revision_hashes-expected p doc latest_doc is_latest found h;
  }

  -- What construct_annotated_doc returns is a new revision, with the author's ids and date, the request's statuses
  -- and categories, and for each page number the hash of the request's last page with it, but on a merge first
  -- the latest revision's hash of it; it stands behind the other revisions, and differs from the latest one.
  -- Or it is the latest revision, and the revisions, the tasks and the jobs are unchanged: then such a new one
  -- has as many pages, with the same hashes, the same validated and the same failed pages, and neither has
  -- categories. After an exception these tables are unchanged, but for at most such a new revision.
  pub construct_annotated_doc-IsConstructed :
      (author : Author) (doc : DocForSave services) (latest_doc : Option Revision)
      (is_latest : Bool)
      → (s : Store)
      → Holds
          (λ result after. IsConstructed author doc latest_doc is_latest s after result)
          (IsFailed author doc latest_doc is_latest s)
          (construct_annotated_doc services author doc latest_doc is_latest s)
  unfolding construct_annotated_doc Outcome
  construct_annotated_doc-IsConstructed author doc latest_doc is_latest s = >>=-Holds _ _ _ (
      lift-Holds _ s
        (λ found h.
          let r = new_revision services author doc found.0 found.1 in
          save_unless-Outcome author doc latest_doc is_latest r (identical_doc latest_doc r) s
            (new_revision-IsNew author doc latest_doc is_latest found h)
            (λ l g. identical_doc-some latest_doc r l g)
            (λ g l e. identical_doc-none latest_doc r l g e))
        (failed_before (same s)))
