-- ===== src/Distribution/Validation/Sets.antt =====
-- The dict of sets that the validation starts from, against the files.
use badgerdoc.Base.{
  ℕ, ◌+◌, ◌≤◌, ◌≡◌, inl, inr, List, [], ◌∷◌, if◌then◌else◌, ◌==◌, contains, count, arith,
  Bool-cases,
}
use badgerdoc.Distribution.Types.{FileItem, item_pages, total, holders}
use badgerdoc.Distribution.Validation.{PagesDict, dict_set, all_pages}
use badgerdoc.Distribution.Validation.Pass.{open_in, IsSets}

-- Python's set(xs), as the list in which it is iterated: each item of xs once, and nothing else.
abbrev pub IsToSet : (List ℕ → List ℕ) → Type 0
IsToSet to_set =
    (page : ℕ) (xs : List ℕ) → count page (to_set xs) ≡ (if contains page xs then 1 else 0)

-- One if page `page` is one of the pages that the files offer for file `id`.
abbrev pub offered : ℕ → ℕ → List FileItem → ℕ
offered id page =
    total (λ f. if f.file_id == id then if contains page (item_pages f) then 1 else 0 else 0)

abbrev keys : ℕ → PagesDict → ℕ
keys id [] = 0
keys id ((file, pages) ∷ files) = (if file == id then 1 else 0) + keys id files

open_in-dict_set :
    (id page key : ℕ) (pages : List ℕ) (d : PagesDict)
    → keys key d ≡ 0
    → open_in id page (dict_set key pages d)
      ≡ open_in id page d + (if key == id then count page pages else 0)
open_in-dict_set id page key pages [] h = ground arith
open_in-dict_set id page key pages ((k, v) ∷ d) h =
    ground (arith, open_in-dict_set id page key pages d)

keys-dict_set :
    (id key : ℕ) (pages : List ℕ) (d : PagesDict)
    → keys key d ≡ 0
    → keys id (dict_set key pages d) ≡ keys id d + (if key == id then 1 else 0)
keys-dict_set id key pages [] h = ground arith
keys-dict_set id key pages ((k, v) ∷ d) h = ground (arith, keys-dict_set id key pages d)

dict_set-IsSets :
    (key : ℕ) (pages : List ℕ) (d : PagesDict)
    → ((page : ℕ) → count page pages ≤ 1)
    → IsSets d
    → IsSets (dict_set key pages d)
dict_set-IsSets key pages [] h s = (h, tt)
dict_set-IsSets key pages ((k, v) ∷ d) h s = elim (Bool-cases (k == key)) [
  | inl same ↦ rw same (h, s.1)
  | inr other ↦ rw other (s.0, dict_set-IsSets key pages d h s.1)
]

module _ (to_set : List ℕ → List ℕ) (law : IsToSet to_set) where
  set-once : (xs : List ℕ) (page : ℕ) → count page (to_set xs) ≤ 1
  set-once xs page = ground (arith, law page xs)

  pub all_pages-IsSets :
      (acc : PagesDict) (files : List FileItem) → IsSets acc → IsSets (all_pages to_set acc files)
  unfolding all_pages
  all_pages-IsSets acc [] s = s
  all_pages-IsSets acc (f ∷ files) s =
      all_pages-IsSets (dict_set f.file_id (to_set (item_pages f)) acc) files
        (dict_set-IsSets f.file_id (to_set (item_pages f)) acc (set-once (item_pages f)) s)

  pub open_in-all_pages :
      (id page : ℕ) (acc : PagesDict) (files : List FileItem)
      → ((i : ℕ) → keys i acc + holders i files ≤ 1)
      → open_in id page (all_pages to_set acc files) ≡ open_in id page acc + offered id page files
  unfolding all_pages
  open_in-all_pages id page acc [] d = omega arith
  open_in-all_pages id page acc (f ∷ files) d =
      let pages = to_set (item_pages f) in
      let absent : keys f.file_id acc ≡ 0 = ground (arith, d f.file_id) in
      ground (
        arith,
        open_in-all_pages id page (dict_set f.file_id pages acc) files
            (λ i. ground (arith, d i, keys-dict_set i f.file_id pages acc absent)),
        open_in-dict_set id page f.file_id pages acc absent,
        law page (item_pages f),
      )
