-- ===== src/Distribution/Files/Laws.antt =====
-- The choice of whole files never raises, and chooses files of the list, each at most once.
use mathlib.Core.List.{Sublistᴰ, Memᴰ}
use badgerdoc.Base.{
  ℕ, ◌+◌, ◌≤◌, ◌<◌, ◌≡◌, refl, ap, ap₂, ◌∙◌, ℤ, pos, ◌-ℤ◌, leb_ℤ, ◌≤ℤ◌, int_laws, -ℤ_parts, ok,
  ◌>>=◌, List, [], ◌∷◌, ◌++◌, if◌then◌else◌, ◌==◌, ◌&&◌, not, true, false, contains, count, sum,
  arith, inl, inr, ◌⊎◌, Option-cases, Bool-cases,
}
use badgerdoc.Distribution.Types.{FileItem, holders, IsDistinct}
use badgerdoc.Distribution.Combination.{find_pages_combination}
use badgerdoc.Distribution.Combination.Laws.{
  IsCombination, find_pages_combination_sound, find_pages_combination_complete,
}
use badgerdoc.Distribution.Files.{
  next_file, find_files_from, find_files_for_task, files_pages, find_equal_files, small_pages,
  find_small_files,
}

-- Files of the list, each with an id that is neither in `taken` nor that of an earlier one.
abbrev pub IsSelection : List ℕ → List FileItem → List FileItem → Type 0
IsSelection taken files [] = Unit
IsSelection taken files (f ∷ fs) =
    Memᴰ f files
    × (contains f.file_id taken ≡ false)
    × IsSelection (taken ++ f.file_id ∷ []) files fs

abbrev pub numbers : List FileItem → List ℕ
numbers [] = []
numbers (f ∷ fs) = f.pages_number ∷ numbers fs

-- How many files with `pages` pages have an id outside `taken`.
abbrev available : ℕ → List ℕ → List FileItem → ℕ
available pages taken [] = 0
available pages taken (f ∷ fs) =
    (if f.pages_number == pages && not (contains f.file_id taken) then 1 else 0)
    + available pages taken fs

-- Those of them with the id `id`.
abbrev available_as : ℕ → ℕ → List ℕ → List FileItem → ℕ
available_as id pages taken [] = 0
available_as id pages taken (f ∷ fs) =
    (if f.file_id == id
      then if f.pages_number == pages && not (contains f.file_id taken) then 1 else 0
      else 0)
    + available_as id pages taken fs

pub contains-snoc :
    (x y : ℕ) (xs : List ℕ) → contains x (xs ++ y ∷ []) ≡ (if y == x then true else contains x xs)
contains-snoc x y [] = ground arith
contains-snoc x y (z ∷ xs) = ground (arith, contains-snoc x y xs)

available-take :
    (id pages : ℕ) (taken : List ℕ) (files : List FileItem)
    → available pages (taken ++ id ∷ []) files + available_as id pages taken files
      ≡ available pages taken files
available-take id pages taken [] = omega arith
available-take id pages taken (f ∷ fs) =
    ground (arith, available-take id pages taken fs, contains-snoc f.file_id id taken)

available_as-absent :
    (id pages : ℕ) (taken : List ℕ) (files : List FileItem)
    → holders id files ≡ 0
    → available_as id pages taken files ≡ 0
available_as-absent id pages taken [] h = refl
available_as-absent id pages taken (f ∷ fs) h =
    ground (arith, available_as-absent id pages taken fs)

pub holders-mem :
    (f : FileItem) (files : List FileItem) → Memᴰ f files → 0 < holders f.file_id files
holders-mem f [] m = elim m [ ]
holders-mem f (g ∷ files) (Memᴰ.head e) = ground (arith, ap (λ (x : FileItem). x.file_id) e)
holders-mem f (g ∷ files) (Memᴰ.tail m) = ground (arith, holders-mem f files m)

available_as-mem :
    (f : FileItem) (pages : ℕ) (taken : List ℕ) (files : List FileItem)
    → holders f.file_id files ≤ 1
    → Memᴰ f files
    → contains f.file_id taken ≡ false
    → available_as f.file_id pages taken files ≡ (if f.pages_number == pages then 1 else 0)
available_as-mem f pages taken [] d m h = elim m [ ]
available_as-mem f pages taken (g ∷ files) d (Memᴰ.head e) h = ground (
  arith,
  ap (λ (x : FileItem). x.file_id) e,
  ap (λ (x : FileItem). x.pages_number) e,
  available_as-absent f.file_id pages taken files,
  ap (λ (x : FileItem). contains x.file_id taken) e,
)
available_as-mem f pages taken (g ∷ files) d (Memᴰ.tail m) h =
    ground (arith, available_as-mem f pages taken files, m, holders-mem f files m)

record IsFirstHit (files : List FileItem) (pages : ℕ) (taken : List ℕ) (f : FileItem) : Type 0 where
  found : next_file files pages taken ≡ ok f
  mem : Memᴰ f files
  fits : f.pages_number ≡ pages
  fresh : contains f.file_id taken ≡ false

next_file_total :
    (files : List FileItem) (pages : ℕ) (taken : List ℕ)
    → 0 < available pages taken files
    → (f : FileItem) × IsFirstHit files pages taken f
unfolding next_file
next_file_total [] pages taken h = absurd (omega arith)
next_file_total (x ∷ files) pages taken h =
    elim (Bool-cases (x.pages_number == pages && not (contains x.file_id taken))) [
      | inl here ↦ (
        x,
        record {
          found = ground (arith, here);
          mem = Memᴰ.head refl;
          fits = ground (arith, here);
          fresh = ground (arith, here);
        },
      )
      | inr later ↦
          let (f, n) = next_file_total files pages taken (ground (arith, later)) in
          (
            f,
            record {
              found = rw later n.found;
              mem = Memᴰ.tail n.mem;
              fits = n.fits;
              fresh = n.fresh;
            },
          )
    ]

find_files_from_total :
    (files : List FileItem) (taken pages_for_task : List ℕ)
    → IsDistinct files
    → ((pages : ℕ) → count pages pages_for_task ≤ available pages taken files)
    → (found : List FileItem) × (find_files_from files taken pages_for_task ≡ ok found)
      × IsSelection taken files found
      × (numbers found ≡ pages_for_task)
unfolding find_files_from
find_files_from_total files taken [] d enough = ([], refl, tt, refl)
find_files_from_total files taken (p ∷ ps) d enough =
    let (f, n) = next_file_total files p taken (ground (arith, enough p)) in
    let (rest, e, selected, numbered) =
      find_files_from_total files (taken ++ f.file_id ∷ []) ps d
        (λ pages. still f n.mem n.fits n.fresh pages) in
    (
      f ∷ rest,
      ap
            (λ r. r >>= λ file.
              find_files_from files (taken ++ file.file_id ∷ []) ps >>= λ more. ok (file ∷ more))
            n.found
          ∙ ap (λ r. r >>= λ more. ok (f ∷ more)) e,
      (n.mem, n.fresh, selected),
      ap₂ (λ x xs. x ∷ xs) n.fits numbered,
    )
  where
    still :
        (f : FileItem)
        → Memᴰ f files
        → f.pages_number ≡ p
        → contains f.file_id taken ≡ false
        → (pages : ℕ) → count pages ps ≤ available pages (taken ++ f.file_id ∷ []) files
    still f m fits fresh pages = ground (
      arith,
      enough pages,
      available-take f.file_id pages taken files,
      available_as-mem f pages taken files (d f.file_id) m fresh,
      fits,
    )

count-sublist : (x : ℕ) {xs ys : List ℕ} → Sublistᴰ xs ys → count x xs ≤ count x ys
count-sublist x Sublistᴰ.slnil = omega arith
count-sublist x (Sublistᴰ.cons s) = omega (arith, count-sublist x s)
count-sublist x (Sublistᴰ.cons-cons {a} {b} e s) = ground (arith, count-sublist x s, e)

count-files_pages :
    (pages : ℕ) (files : List FileItem) → count pages (files_pages files) ≤ available pages [] files
count-files_pages pages [] = omega arith
count-files_pages pages (f ∷ fs) = ground (arith, count-files_pages pages fs)

-- Any of the page numbers can be looked up again as files.
find_files_for_task_total :
    (files : List FileItem) {pages_for_task : List ℕ}
    → IsDistinct files
    → Sublistᴰ pages_for_task (files_pages files)
    → (found : List FileItem) × (find_files_for_task files pages_for_task ≡ ok found)
      × IsSelection [] files found
      × (numbers found ≡ pages_for_task)
unfolding find_files_for_task
find_files_for_task_total files {pages_for_task} d chosen =
    find_files_from_total files [] pages_for_task d
      (λ pages. omega (arith, count-sublist pages chosen, count-files_pages pages files))

-- No choice of the page numbers of the files sums to the load.
abbrev pub IsUnfillable : List FileItem → ℤ → Type 0
IsUnfillable files user_pages =
    (pages : List ℕ) → ¬ IsCombination (files_pages files) user_pages pages

-- With distinct ids find_equal_files does not raise; it chooses files whose page numbers sum to the load,
-- or nothing if no choice of them does.
pub find_equal_files_total :
    (files : List FileItem) (user_pages : ℤ)
    → IsDistinct files
    → (found : List FileItem) × (find_equal_files files user_pages ≡ ok found)
      × IsSelection [] files found
      × (((found ≡ []) × IsUnfillable files user_pages) ⊎ (pos (sum (numbers found)) ≡ user_pages))
unfolding find_equal_files
find_equal_files_total files user_pages d =
    elim (Option-cases (find_pages_combination (files_pages files) user_pages)) [
      | inl nothing ↦ (
        [],
        rw nothing refl,
        tt,
        inl (refl, find_pages_combination_complete (files_pages files) user_pages nothing),
      )
      | inr (pages, e) ↦
          let c = find_pages_combination_sound (files_pages files) user_pages e in
          let (found, done, selected, numbered) = find_files_for_task_total files d c.chosen in
          (found, rw e done, selected, inr (ap (λ l. pos (sum l)) numbered ∙ c.total))
    ]

small_pages-sublist : (user_pages : ℤ) (xs : List ℕ) → Sublistᴰ (small_pages user_pages xs) xs
unfolding small_pages
small_pages-sublist u [] = Sublistᴰ.slnil
small_pages-sublist u (x ∷ xs) = elim (Bool-cases (leb_ℤ (pos x) u)) [
  | inl fits ↦ rw fits (Sublistᴰ.cons-cons refl (small_pages-sublist (u -ℤ pos x) xs))
  | inr large ↦ rw large (Sublistᴰ.cons (small_pages-sublist u xs))
]

sum-small_pages :
    (user_pages : ℤ) (xs : List ℕ)
    → pos 0 ≤ℤ user_pages
    → pos (sum (small_pages user_pages xs)) ≤ℤ user_pages
unfolding small_pages
sum-small_pages u [] h = omega arith
sum-small_pages u (x ∷ xs) h = elim (Bool-cases (leb_ℤ (pos x) u)) [
  | inl fits ↦
      let left : pos 0 ≤ℤ (u -ℤ pos x) = ground (arith, -ℤ_parts u (pos x), fits) in
      rw fits (omega (int_laws, sum-small_pages (u -ℤ pos x) xs left, -ℤ_parts u (pos x)))
  | inr large ↦ rw large (sum-small_pages u xs h)
]

-- With distinct ids and a load of zero or more find_small_files does not raise, and chooses files
-- that fit into the load together.
pub find_small_files_total :
    (files : List FileItem) (user_pages : ℤ)
    → IsDistinct files
    → pos 0 ≤ℤ user_pages
    → (found : List FileItem) × (find_small_files files user_pages ≡ ok found)
      × IsSelection [] files found
      × (pos (sum (numbers found)) ≤ℤ user_pages)
unfolding find_small_files
find_small_files_total files u d h =
    let (found, done, selected, numbered) =
      find_files_for_task_total files d (small_pages-sublist u (files_pages files)) in
    (found, done, selected, omega (arith, ap sum numbered, sum-small_pages u (files_pages files) h))
