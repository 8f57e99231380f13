-- ===== src/Distribution/Validation/Pass.antt =====
-- One validator's turn: which pages of the files go, and which stay.
use badgerdoc.Base.{
  ℕ, ◌+◌, ◌≤◌, ◌≡◌, refl, inl, inr, ℤ, Bool, true, false, not, List, [], ◌∷◌, if◌then◌else◌, ◌==◌,
  contains, count, count-filter_by, All, All-append, arith, Bool-cases,
}
use badgerdoc.Distribution.Types.{User, Settings, Task, covered, covered-append, IsSized}
use badgerdoc.Distribution.Annotated.{AnnotatedFilesPages, annotated_pages, annotates}
use badgerdoc.Distribution.Tasks.{tasks_number, chunk_tasks}
use badgerdoc.Distribution.Tasks.Chunks.{chunk_tasks-IsCut}
use badgerdoc.Distribution.Validation.{
  PagesDict, take_pages, difference, filter_validation_files_pages, validation_tasks_of,
}
use badgerdoc.Distribution.Validation.Take.{
  count-take_pages, count-take_pages_all, count-difference,
}

-- How often the dict holds page `page` of file `id`.
abbrev pub open_in : ℕ → ℕ → PagesDict → ℕ
open_in id page [] = 0
open_in id page ((file, pages) ∷ files) =
    (if file == id then count page pages else 0) + open_in id page files

-- The values of the dict are sets.
abbrev pub IsSets : PagesDict → Type 0
IsSets [] = Unit
IsSets ((file, pages) ∷ files) = ((page : ℕ) → count page pages ≤ 1) × IsSets files

count-difference-le :
    (page : ℕ) (pages taken : List ℕ) → count page (difference pages taken) ≤ count page pages
count-difference-le page pages taken =
    ground (arith, count-filter_by page (λ p. not (contains p taken)) pages)

take-le :
    (page : ℕ) (c : Bool) (annotated : List ℕ) (load : ℤ) (pages : List ℕ)
    → count page (take_pages c annotated load pages).0 ≤ count page pages
take-le page c annotated load pages = ground (arith, count-take_pages page c annotated load pages)

module _ {F : Type 0} (annotated : AnnotatedFilesPages) where
  pub record IsFiltered (validator : User F) (files taken files' : PagesDict) (validator' : User F)
      : Type 0 where
    pub kept :
        (id page : ℕ) → open_in id page taken + open_in id page files' ≡ open_in id page files
    pub foreign :
        (id page : ℕ)
        → annotates annotated validator.user_id id page ≡ true
        → open_in id page taken ≡ 0
    pub sets : IsSets files'
    pub same_user : validator'.user_id ≡ validator.user_id

  pub filter-IsFiltered :
      (validator : User F) (files : PagesDict) (c : Bool)
      → IsSets files
      → let (taken, files', validator') =
          filter_validation_files_pages validator annotated files c in
        IsFiltered validator files taken files' validator'
  unfolding filter_validation_files_pages
  filter-IsFiltered validator [] c sets = record {
    kept = λ id page. refl;
    foreign = λ id page h. refl;
    sets = tt;
    same_user = refl;
  }
  filter-IsFiltered validator ((file, pages) ∷ files) c sets =
      let own = annotated_pages annotated validator.user_id file in
      let load = validator.pages_number in
      let (taken, left, stopped) = take_pages c own load pages in
      let here = λ (page : ℕ).
        count-difference page pages taken (sets.0 page) (take-le page c own load pages) in
      let mine = λ (page : ℕ). count-take_pages page c own load pages in
      let fewer : (page : ℕ) → count page (difference pages taken) ≤ 1 =
        λ page. omega (arith, count-difference-le page pages taken, sets.0 page) in
      let rest = filter-IsFiltered (record validator { pages_number = left }) files c sets.1 in
      elim (Bool-cases stopped) [
        | inl stop ↦ rw stop (record {
          kept = λ id page. ground (arith, here page);
          foreign = λ id page h. ground (arith, mine page, h);
          sets = (λ page. fewer page, sets.1);
          same_user = refl;
        })
        | inr on ↦ rw on (record {
          kept = λ id page. ground (arith, here page, rest.kept id page);
          foreign = λ id page h. ground (arith, mine page, h, rest.foreign id page h);
          sets = (λ page. fewer page, rest.sets);
          same_user = rest.same_user;
        })
      ]

  -- Without counting the load, every page of every file goes that the validator does not annotate.
  pub filter_all :
      (validator : User F) (files : PagesDict) (id page : ℕ)
      → IsSets files
      → annotates annotated validator.user_id id page ≡ false
      → open_in id page (filter_validation_files_pages validator annotated files false).1 ≡ 0
  unfolding filter_validation_files_pages
  filter_all validator [] id page sets h = refl
  filter_all validator ((file, pages) ∷ files) id page sets h =
      let own = annotated_pages annotated validator.user_id file in
      let load = validator.pages_number in
      let (taken, left, stopped) = take_pages false own load pages in
      let here =
        count-difference page pages taken (sets.0 page) (take-le page false own load pages) in
      let (all, on) = count-take_pages_all page own load pages in
      let rest = filter_all (record validator { pages_number = left }) files id page sets.1 h in
      rw on (ground (arith, here, all, h, rest))

-- The tasks of one validator hold the pages of the dict.
pub record IsWork (user : ℕ) (files : PagesDict) (tasks : List Task) : Type 0 where
  pub pages_covered : (id page : ℕ) → covered id page tasks ≡ open_in id page files
  pub owner : All (λ t. t.user_id ≡ user) tasks
  pub sized : All IsSized tasks

pub validation_tasks_of-IsWork :
    (settings : Settings) (user : ℕ) (files : PagesDict)
    → IsWork user files (validation_tasks_of settings user files)
unfolding validation_tasks_of
validation_tasks_of-IsWork settings user [] = record {
  pages_covered = λ id page. refl;
  owner = tt;
  sized = tt;
}
validation_tasks_of-IsWork settings user ((file, pages) ∷ files) =
    let s = record settings { is_validation = true } in
    let cut = chunk_tasks-IsCut s file user pages in
    let tasks = (chunk_tasks s file user (tasks_number pages) pages).0 in
    let rest = validation_tasks_of-IsWork settings user files in
    let more = validation_tasks_of settings user files in
    record {
      pages_covered = λ id page. omega (
        arith,
        covered-append id page tasks more,
        cut.pages_covered id page,
        rest.pages_covered id page,
      );
      owner = All-append (λ t. t.user_id ≡ user) tasks more cut.owner rest.owner;
      sized = All-append IsSized tasks more cut.sized rest.sized;
    }
