-- ===== src/Distribution/Whole/Choice.antt =====
-- The files that a user may be given: those of the list that the user does not annotate.
use mathlib.Core.List.{Memᴰ}
use badgerdoc.Base.{
  ℕ, ◌≤◌, ◌≡◌, refl, ap, ◌∙◌, inl, inr, List, [], ◌∷◌, ◌++◌, Bool, true, false, not, contains,
  filter_by, map, arith, Bool-cases,
}
use badgerdoc.Distribution.Types.{FileItem, holders}
use badgerdoc.Distribution.Annotated.{
  AnnotatedFilesPages, annotated_of, annotated_pages, annotates, file_of_page,
}
use badgerdoc.Distribution.Files.Laws.{IsSelection, holders-mem}
use badgerdoc.Distribution.Whole.{files_to_distribute}

mem-filter_by :
    (keep : FileItem → Bool) {f : FileItem} (files : List FileItem)
    → Memᴰ f (filter_by keep files)
    → Memᴰ f files
mem-filter_by keep [] m = elim m [ ]
mem-filter_by keep {f} (g ∷ files) m = elim (Bool-cases (keep g)) [
  | inl kept ↦ first (mem-filter_by keep files) (rw kept at m)
  | inr out ↦ Memᴰ.tail (mem-filter_by keep files (rw out at m))
]
  where
    first :
        (Memᴰ f (filter_by keep files) → Memᴰ f files)
        → Memᴰ f (g ∷ filter_by keep files)
        → Memᴰ f (g ∷ files)
    first later (Memᴰ.head e) = Memᴰ.head e
    first later (Memᴰ.tail t) = Memᴰ.tail (later t)

pub holders-filter_by :
    (keep : FileItem → Bool) (id : ℕ) (files : List FileItem)
    → holders id (filter_by keep files) ≤ holders id files
holders-filter_by keep id [] = omega arith
holders-filter_by keep id (g ∷ files) = ground (arith, holders-filter_by keep id files)

pub filter_by-IsSelection :
    (keep : FileItem → Bool) (taken : List ℕ) (files found : List FileItem)
    → IsSelection taken (filter_by keep files) found
    → IsSelection taken files found
filter_by-IsSelection keep taken files [] s = tt
filter_by-IsSelection keep taken files (f ∷ fs) (m, fresh, s) = (
  mem-filter_by keep files m,
  fresh,
  filter_by-IsSelection keep (taken ++ f.file_id ∷ []) files fs s,
)

-- A file outside the candidates is not chosen.
pub filter_by-absent :
    (keep : FileItem → Bool) (id : ℕ) (files : List FileItem)
    → ((f : FileItem) → f.file_id ≡ id → keep f ≡ false)
    → holders id (filter_by keep files) ≡ 0
filter_by-absent keep id [] h = refl
filter_by-absent keep id (f ∷ files) h = ground (arith, h f, filter_by-absent keep id files h)

pub selection-absent :
    (id : ℕ) (taken : List ℕ) (files found : List FileItem)
    → holders id files ≡ 0
    → IsSelection taken files found
    → holders id found ≡ 0
selection-absent id taken files [] h s = refl
selection-absent id taken files (f ∷ fs) h (m, fresh, s) =
    ground
      (arith, holders-mem f files m, selection-absent id (taken ++ f.file_id ∷ []) files fs h s)

-- No candidate of a user is a file with a page that the user annotates.
pub candidates_absent :
    (annotated : AnnotatedFilesPages) (user id page : ℕ) (files : List FileItem)
    → annotates annotated user id page ≡ true
    → holders id (files_to_distribute annotated user files) ≡ 0
unfolding annotated_pages
candidates_absent annotated user id page files h =
    let infos = annotated_of user annotated in
    filter_by-absent (λ item. not (contains item.file_id (map (λ info. info.file_id) infos))) id
      files
      (λ f e.
        ap not (
          ap (λ x. contains x (map (λ info. info.file_id) infos)) e ∙ file_of_page id page infos h))
