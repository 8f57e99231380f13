-- ===== src/Annotations/Read/Laws.antt =====
-- The pages that are uploaded are those that are loaded.
use badgerdoc.Base.{
  ℕ, ◌≡◌, refl, ◌∙◌, ap, sym, true, false, Option, some, List, [], ◌∷◌, ◌++◌, ◌==◌, number_key,
  lookup, lookup-put, put, Bool-cases, inl, inr, ok, arith,
}
use badgerdoc.Actions.{Holds, returned, >>=-Holds, weaken-Holds, both-Holds}
use badgerdoc.Annotations.Types.{Text, same_text, Revision}
use badgerdoc.Annotations.Tables.{Services, ObjectPath, Store}
use badgerdoc.Annotations.Save.{Page, hash_pages, get_pages_sha, put_object, upload_pages_to_minio}
use badgerdoc.Annotations.Save.Identity.{same_text_refl, same_text-equal}
use badgerdoc.Annotations.Read.{same_path, find_object, load_object, load_page}

same_path_refl : (p : ObjectPath) → same_path p p ≡ true
same_path_refl p = ground (arith, same_text_refl p.bucket, same_text_refl p.name)

same_path-name : (p q : ObjectPath) → same_path p q ≡ true → p.name ≡ q.name
same_path-name p q h = same_text-equal p.name q.name (ground (arith, h))

module _ (services : Services) where
  open services use {Content, dumps_page, loads_page, encode, sha1}

  abbrev pub hash_of : Page services → Text
  hash_of page = sha1 (encode (dumps_page page.page_num page.content))

  abbrev pub page_path : Text → Revision → Page services → ObjectPath
  page_path bucket_name doc page = record {
    bucket = bucket_name;
    job_id = doc.job_id;
    file_id = doc.file_id;
    name = hash_of page;
  }

  -- JSON gives back the page that it is given, and a hash is not empty.
  pub record IsFaithful : Type 0 where
    pub round_trip :
        (n : ℕ) (content : Content) → loads_page (dumps_page n content) ≡ ok (n, content)
    pub not_empty : (bytes : List ℕ) → same_text (sha1 bytes) [] ≡ false

  -- Of the later pages none has this page's number, and only the same text has the same hash.
  abbrev pub AreApart : Page services → List (Page services) → Type 0
  AreApart p [] = Unit
  AreApart p (q ∷ pages) =
      (p.page_num == q.page_num ≡ false)
      × (hash_of q ≡ hash_of p → dumps_page q.page_num q.content ≡ dumps_page p.page_num p.content)
      × AreApart p pages

  abbrev pub AreDistinct : List (Page services) → Type 0
  AreDistinct [] = Unit
  AreDistinct (page ∷ pages) = AreApart page pages × AreDistinct pages

  -- Each page has its hash.
  AreHashed : List (ℕ × Text) → List (Page services) → Type 0
  AreHashed d [] = Unit
  AreHashed d (page ∷ pages) = (lookup page.page_num d ≡ some (hash_of page)) × AreHashed d pages

  hash_pages-lookup :
      (p : Page services) (pages : List (Page services)) (d : List (ℕ × Text)) (b : List ℕ)
      → AreApart p pages
      → lookup p.page_num (hash_pages services pages d b).0 ≡ lookup p.page_num d
  hash_pages-lookup p [] d b h = refl
  hash_pages-lookup p (q ∷ pages) d b h =
      let b_page = encode (dumps_page q.page_num q.content) in
      hash_pages-lookup p pages (put q.page_num (sha1 b_page) d) (b ++ b_page) h.2
      ∙ ground (arith, lookup-put q.page_num p.page_num (hash_of q) d, h.0)

  hash_pages-AreHashed :
      (pages : List (Page services)) (d : List (ℕ × Text)) (b : List ℕ)
      → AreDistinct pages
      → AreHashed (hash_pages services pages d b).0 pages
  unfolding AreHashed
  hash_pages-AreHashed [] d b h = tt
  hash_pages-AreHashed (page ∷ pages) d b h =
      let b_page = encode (dumps_page page.page_num page.content) in
      (
        hash_pages-lookup page pages (put page.page_num (sha1 b_page) d) (b ++ b_page) h.0
            ∙ ground (arith, lookup-put page.page_num page.page_num (hash_of page) d),
        hash_pages-AreHashed pages _ _ h.1,
      )

  module _ (bucket_name : Text) (doc : Revision) where
    HasObject : Page services → Store → Type 0
    HasObject page s =
        find_object (page_path bucket_name doc page) s.objects
        ≡ some (dumps_page page.page_num page.content)

    put_object-new :
        (page : Page services) (s : Store)
        → HasObject page
            (put_object (page_path bucket_name doc page) (dumps_page page.page_num page.content) s)
    unfolding HasObject
    put_object-new page s = rw (same_path_refl (page_path bucket_name doc page)) refl

    put_object-old :
        (p q : Page services) (s : Store)
        → (hash_of q ≡ hash_of p
            → dumps_page q.page_num q.content ≡ dumps_page p.page_num p.content)
        → HasObject p s
        → HasObject p (put_object (page_path bucket_name doc q) (dumps_page q.page_num q.content) s)
    unfolding HasObject
    put_object-old p q s same_body h =
        let at = page_path bucket_name doc in
        elim (Bool-cases (same_path (at q) (at p))) [
          | inl e ↦ rw e (ap some (same_body (same_path-name (at q) (at p) e)))
          | inr e ↦ rw e h
        ]

    -- No exception.
    abbrev pub Never : Store → Type 0
    Never s = false ≡ true

    kept :
        (p : Page services) (pages : List (Page services)) (d : List (ℕ × Text)) (s : Store)
        → AreApart p pages
        → AreHashed d pages
        → HasObject p s
        → Holds (λ _. HasObject p) Never (upload_pages_to_minio services pages d doc bucket_name s)
    unfolding upload_pages_to_minio AreHashed
    kept p [] d s apart hashed h = returned h
    kept p (q ∷ pages) d s apart hashed h = rw (hashed.0) (
        >>=-Holds _ _ _
          (returned (kept p pages d _ apart.2 hashed.1 (put_object-old p q s apart.1 h))))

    -- Each page of the list is at its path.
    AreThere : List (Page services) → Store → Type 0
    AreThere [] s = Unit
    AreThere (page ∷ pages) s = HasObject page s × AreThere pages s

    stored :
        (pages : List (Page services)) (d : List (ℕ × Text)) (s : Store)
        → AreDistinct pages
        → AreHashed d pages
        → Holds
            (λ _. AreThere pages)
            Never
            (upload_pages_to_minio services pages d doc bucket_name s)
    unfolding upload_pages_to_minio AreHashed AreThere
    stored [] d s distinct hashed = returned tt
    stored (page ∷ pages) d s distinct hashed = rw (hashed.0) (
        >>=-Holds _ _ _ (
          returned (
            both-Holds _ (kept page pages d _ distinct.0 hashed.1 (put_object-new page s))
              (stored pages d _ distinct.1 hashed.1))))

    -- load_page gives back each page of the list, by its hash.
    pub AreLoaded : List (Page services) → Store → Type 0
    AreLoaded [] s = Unit
    AreLoaded (page ∷ pages) s =
        (load_page services s.objects bucket_name doc.job_id doc.file_id page.page_num
            (some (hash_of page))
          ≡ ok (page.page_num, page.content))
        × AreLoaded pages s

    load_page-some :
        (page : Page services) (s : Store)
        → IsFaithful
        → HasObject page s
        → (name : Text) → hash_of page ≡ name
        → same_text name [] ≡ false
        → load_page services s.objects bucket_name doc.job_id doc.file_id page.page_num (some name)
          ≡ ok (page.page_num, page.content)
    unfolding HasObject
    load_page-some page s faithful h [] e not_empty = ground (arith, not_empty)
    load_page-some page s faithful h (c ∷ name) e not_empty =
        rw (sym e) (rw (h, load_object) (faithful.round_trip page.page_num page.content))

    AreThere-AreLoaded :
        (pages : List (Page services)) (s : Store)
        → IsFaithful
        → AreThere pages s
        → AreLoaded pages s
    unfolding AreThere AreLoaded
    AreThere-AreLoaded [] s faithful h = tt
    AreThere-AreLoaded (page ∷ pages) s faithful h = (
      load_page-some page s faithful h.0 (hash_of page) refl (faithful.not_empty _),
      AreThere-AreLoaded pages s faithful h.1,
    )

  -- Pages with distinct numbers, of which no two different ones have the same hash, are all uploaded under
  -- the hashes of get_pages_sha, without an exception, and load_page gives back each of them by its hash;
  -- JSON is relied on to give back a page, and no hash to be empty.
  pub upload_pages_to_minio-load_page :
      (bucket_name : Text) (doc : Revision) (pages : List (Page services)) (base : Option Text)
      → (validated failed : List ℕ) (s : Store) → IsFaithful
      → AreDistinct pages
      → Holds
          (λ _. AreLoaded bucket_name doc pages)
          (Never bucket_name doc)
          (upload_pages_to_minio services pages
            (get_pages_sha services pages base validated failed).0
            doc
            bucket_name
            s)
  upload_pages_to_minio-load_page bucket_name doc pages base validated failed s faithful distinct =
      weaken-Holds (λ _ a h. AreThere-AreLoaded bucket_name doc pages a faithful h) (λ a h. h)
        (stored bucket_name doc pages _ s distinct (hash_pages-AreHashed pages [] _ distinct))
