-- ===== src/Distribution/Validation/Laws.antt =====
-- The tasks for validation: nobody validates pages of his own, and every page that somebody may
-- validate is given out once.
use badgerdoc.Base.{
  ℕ, ◌+◌, ◌≡◌, refl, ◌∙◌, inl, inr, Bool, true, false, List, [], ◌∷◌, if◌then◌else◌, All,
  All-append, arith, Bool-cases,
}
use badgerdoc.Distribution.Types.{
  FileItem, User, Settings, Task, IsDistinct, covered, covered-append, covered_by,
  covered_by-append, covered_by-le, IsSized,
}
use badgerdoc.Distribution.Annotated.{AnnotatedFilesPages, annotates, own_work, any_fresh}
use badgerdoc.Distribution.Validation.{
  PagesDict, filter_validation_files_pages, validation_tasks_of, any_pages, all_pages,
  create_partial_validation_tasks, distribute_validation_partial_files,
}
use badgerdoc.Distribution.Validation.Pass.{
  open_in, IsSets, filter-IsFiltered, filter_all, validation_tasks_of-IsWork,
}
use badgerdoc.Distribution.Validation.Sets.{IsToSet, offered, all_pages-IsSets, open_in-all_pages}

module _ {F : Type 0} (annotated : AnnotatedFilesPages) where
  pub record IsPass (validators : List (User F)) (files : PagesDict) (tasks : List Task)
      (files' : PagesDict) (validators' : List (User F)) : Type 0 where
    pub kept :
        (id page : ℕ) → covered id page tasks + open_in id page files' ≡ open_in id page files
    pub foreign :
        (user id page : ℕ)
        → annotates annotated user id page ≡ true
        → covered_by user id page tasks ≡ 0
    pub untouched :
        (id page : ℕ) → any_fresh annotated validators id page ≡ false → covered id page tasks ≡ 0
    pub sets : IsSets files'
    pub sized : All IsSized tasks
    pub same :
        (id page : ℕ)
        → any_fresh annotated validators' id page ≡ any_fresh annotated validators id page

  create_partial-IsPass :
      (validators : List (User F)) (files : PagesDict) (settings : Settings) (c : Bool)
      → IsSets files
      → let (tasks, files', validators') =
          create_partial_validation_tasks annotated validators files settings c in
        IsPass validators files tasks files' validators'
  unfolding create_partial_validation_tasks
  create_partial-IsPass [] files settings c sets = record {
    kept = λ id page. omega arith;
    foreign = λ user id page h. refl;
    untouched = λ id page h. refl;
    sets = sets;
    sized = tt;
    same = λ id page. refl;
  }
  create_partial-IsPass (v ∷ validators) files settings c sets =
      let (pages, files', v') = filter_validation_files_pages v annotated files c in
      let f = filter-IsFiltered annotated v files c sets in
      let w = validation_tasks_of-IsWork settings v.user_id pages in
      let tasks = validation_tasks_of settings v.user_id pages in
      let (more, files'', validators') =
        create_partial_validation_tasks annotated validators files' settings c in
      let rest = create_partial-IsPass validators files' settings c f.sets in
      record {
        kept = λ id page. omega (
          arith,
          covered-append id page tasks more,
          w.pages_covered id page,
          f.kept id page,
          rest.kept id page,
        );
        foreign = λ user id page h. ground (
          arith,
          covered_by-append user id page tasks more,
          covered_by-le user v.user_id id page tasks w.owner,
          w.pages_covered id page,
          f.foreign id page,
          rest.foreign user id page h,
          h,
        );
        untouched = λ id page h. ground (
          arith,
          covered-append id page tasks more,
          w.pages_covered id page,
          f.foreign id page,
          rest.untouched id page,
          h,
        );
        sets = rest.sets;
        sized = All-append IsSized tasks more w.sized rest.sized;
        same = λ id page. ground (arith, rest.same id page, f.same_user);
      }

  -- Without counting the loads, what stays is what all validators annotate.
  create_partial_all :
      (validators : List (User F)) (files : PagesDict) (settings : Settings) (id page : ℕ)
      → IsSets files
      → any_fresh annotated validators id page ≡ true
      → open_in id page
          (create_partial_validation_tasks annotated validators files settings false).1
        ≡ 0
  unfolding create_partial_validation_tasks
  create_partial_all [] files settings id page sets h = cc
  create_partial_all (v ∷ validators) files settings id page sets h =
      let (pages, files', v') = filter_validation_files_pages v annotated files false in
      let f = filter-IsFiltered annotated v files false sets in
      let rest = create_partial-IsPass validators files' settings false f.sets in
      elim (Bool-cases (annotates annotated v.user_id id page)) [
        | inl own ↦
            create_partial_all validators files' settings id page f.sets (ground (arith, own, h))
        | inr fresh ↦
            omega (arith, rest.kept id page, filter_all annotated v files id page sets fresh)
      ]

  pub record IsValidated (to_set : List ℕ → List ℕ) (files : List FileItem)
      (validators : List (User F)) (tasks : List Task) : Type 0 where
    pub pages_covered :
        (id page : ℕ)
        → covered id page tasks
          ≡ (if any_fresh annotated validators id page then offered id page files else 0)
    pub foreign : (user id page : ℕ) → own_work annotated user id page tasks ≡ 0
    pub sized : All IsSized tasks

any_pages-false :
    (files : PagesDict) (id page : ℕ) → any_pages files ≡ false → open_in id page files ≡ 0
any_pages-false [] id page h = refl
any_pages-false ((file, []) ∷ files) id page h = ground (arith, any_pages-false files id page h)
any_pages-false ((file, p ∷ ps) ∷ files) id page h = cc

-- The pages of the tasks after both passes, from what the passes do.
two_passes :
    (start middle final work more : ℕ) (fresh : Bool)
    → work + middle ≡ start
    → more + final ≡ middle
    → (fresh ≡ true → final ≡ 0)
    → (fresh ≡ false → work ≡ 0)
    → (fresh ≡ false → more ≡ 0)
    → work + more ≡ (if fresh then start else 0)
two_passes start middle final work more true a b c d e = omega (arith, c refl)
two_passes start middle final work more false a b c d e = omega (arith, d refl, e refl)

one_pass :
    (start middle work : ℕ) (fresh : Bool)
    → work + middle ≡ start
    → middle ≡ 0
    → (fresh ≡ false → work ≡ 0)
    → work ≡ (if fresh then start else 0)
one_pass start middle work true a b d = omega arith
one_pass start middle work false a b d = d refl

module _ {F : Type 0} (to_set : List ℕ → List ℕ) (law : IsToSet to_set)
    (annotated : AnnotatedFilesPages) (files : List FileItem) (validators : List (User F))
    (settings : Settings) where
  -- For files with distinct ids, whatever the loads are: each page of a file is in the validation tasks
  -- exactly once if some validator does not annotate it, and not at all if all of them annotate it; no
  -- task of a user holds a page that the user annotates; every task has 1 to 50 pages.
  pub distribute_validation_partial_files-IsValidated :
      IsDistinct files
      → IsValidated annotated to_set files validators
          (distribute_validation_partial_files to_set annotated files validators settings)
  unfolding distribute_validation_partial_files
  distribute_validation_partial_files-IsValidated d =
      let start = all_pages to_set [] files in
      let sets = all_pages-IsSets to_set law [] files tt in
      let opened =
        λ (id page : ℕ). open_in-all_pages to_set law id page [] files (λ i. omega (arith, d i)) in
      let (tasks, left, validators') =
        create_partial_validation_tasks annotated validators start settings true in
      let a = create_partial-IsPass annotated validators start settings true sets in
      let (more, left', _) =
        create_partial_validation_tasks annotated validators' left settings false in
      let b = create_partial-IsPass annotated validators' left settings false a.sets in
      elim (Bool-cases (any_pages left)) [
        | inl some ↦ rw some (record {
          pages_covered = λ id page.
              let fresh = any_fresh annotated validators id page in
              let sum =
                two_passes (open_in id page start) (open_in id page left) (open_in id page left')
                  (covered id page tasks) (covered id page more) fresh (a.kept id page)
                  (b.kept id page)
                  (λ h.
                    create_partial_all annotated validators' left settings id page a.sets
                      (a.same id page ∙ h))
                  (a.untouched id page) (λ h. b.untouched id page (a.same id page ∙ h)) in
              ground (arith, sum, opened id page, covered-append id page tasks more);
          foreign = λ user id page. ground (
            arith,
            covered_by-append user id page tasks more,
            a.foreign user id page,
            b.foreign user id page,
          );
          sized = All-append IsSized tasks more a.sized b.sized;
        })
        | inr none ↦ rw none (record {
          pages_covered = λ id page.
              let fresh = any_fresh annotated validators id page in
              let sum =
                one_pass (open_in id page start) (open_in id page left) (covered id page tasks)
                  fresh (a.kept id page) (any_pages-false left id page none)
                  (a.untouched id page) in
              ground (arith, sum, opened id page);
          foreign = λ user id page. ground (arith, a.foreign user id page);
          sized = a.sized;
        })
      ]
