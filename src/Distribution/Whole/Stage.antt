-- ===== src/Distribution/Whole/Stage.antt =====
-- The two stages of distribute_whole_files for one user.
use badgerdoc.Base.{
  All-append, ℕ, ◌+◌, ◌≡◌, refl, ap, ◌⊎◌, inl, inr, ℤ, pos, pos_part, neg_part, ◌+ℤ◌, ◌≤ℤ◌,
  int_laws, +ℤ_parts, Call, ok, List, [], ◌++◌, true, All, arith, sum,
}
use badgerdoc.Distribution.Types.{
  owner_trans, FileItem, User, Settings, Task, IsDistinct, IsConsistent, covered_by,
  covered_by-append, covered_by-le,
}
use badgerdoc.Distribution.Annotated.{AnnotatedFilesPages, annotates}
use badgerdoc.Distribution.Files.{find_equal_files, find_small_files}
use badgerdoc.Distribution.Files.Laws.{
  IsSelection, numbers, find_equal_files_total, find_small_files_total,
}
use badgerdoc.Distribution.Tasks.{create_tasks}
use badgerdoc.Distribution.Tasks.Laws.{
  create_tasks-IsMoved, create_tasks_owner, create_tasks_absent,
}
use badgerdoc.Distribution.Tasks.Moves.{IsMoved, IsMoved-trans}
use badgerdoc.Distribution.Whole.{files_to_distribute, distribute_to_user}
use badgerdoc.Distribution.Whole.Choice.{
  filter_by-IsSelection, holders-filter_by, selection-absent, candidates_absent,
}

nonneg_exact :
    (found : List FileItem) {load : ℤ} (load' : ℤ)
    → (found ≡ []) ⊎ (pos (sum (numbers found)) ≡ load)
    → pos 0 ≤ℤ load
    → load' +ℤ pos (sum (numbers found)) ≡ load
    → pos 0 ≤ℤ load'
nonneg_exact found load' (inl e) h l = omega (
  int_laws,
  ap (λ fs. sum (numbers fs)) e,
  ap pos_part l,
  ap neg_part l,
  +ℤ_parts load' (pos (sum (numbers found))),
)
nonneg_exact found load' (inr e) h l = omega (
  int_laws,
  ap pos_part e,
  ap neg_part e,
  ap pos_part l,
  ap neg_part l,
  +ℤ_parts load' (pos (sum (numbers found))),
)

nonneg_fit : (n : ℕ) {load : ℤ} (load' : ℤ) → pos n ≤ℤ load → load' +ℤ pos n ≡ load → pos 0 ≤ℤ load'
nonneg_fit n load' h l = omega (int_laws, ap pos_part l, ap neg_part l, +ℤ_parts load' (pos n))

pub load_parts :
    (n : ℕ) {load : ℤ} (load' : ℤ)
    → pos 0 ≤ℤ load
    → pos 0 ≤ℤ load'
    → load' +ℤ pos n ≡ load
    → pos_part load' + n ≡ pos_part load
load_parts n {load} load' h k l =
    ground (arith, ap pos_part l, ap neg_part l, +ℤ_parts load' (pos n))

module _ {F : Type 0} where
  -- What one of the two stages for a user does, whichever files it chooses.
  record IsUserStage (annotated : AnnotatedFilesPages) (choice : Call (List FileItem))
      (settings : Settings) (user : User F) (files : List FileItem) : Type 0 where
    found : List FileItem
    chosen : choice ≡ ok found
    moves :
        let (tasks, user', files') = create_tasks settings found user files in
        IsMoved (sum (numbers found)) user files tasks user' files'
    nonneg : pos 0 ≤ℤ (create_tasks settings found user files).1.pages_number
    foreign :
        (u id page : ℕ)
        → annotates annotated u id page ≡ true
        → covered_by u id page (create_tasks settings found user files).0 ≡ 0
    owned : All (λ t. t.user_id ≡ user.user_id) (create_tasks settings found user files).0

  module _ (annotated : AnnotatedFilesPages) (settings : Settings) (user : User F)
      (files : List FileItem) (d : IsDistinct files) (c : All IsConsistent files)
      (h : pos 0 ≤ℤ user.pages_number) (owner : ℕ) (own : user.user_id ≡ owner) where
    abbrev candidates : List FileItem
    candidates = files_to_distribute annotated owner files

    candidates-IsDistinct : IsDistinct candidates
    candidates-IsDistinct = λ i. omega (arith, d i, holders-filter_by _ i files)

    selection-foreign :
        (found : List FileItem)
        → IsSelection [] candidates found
        → (u id page : ℕ) → annotates annotated u id page ≡ true
        → covered_by u id page (create_tasks settings found user files).0 ≡ 0
    selection-foreign found s u id page a =
        let tasks = (create_tasks settings found user files).0 in
        let le =
          covered_by-le u user.user_id id page tasks
            (create_tasks_owner settings found user files) in
        let none = λ (e : owner ≡ u). create_tasks_absent settings id page found user files (
          selection-absent id [] candidates found
            (candidates_absent annotated owner id page files (rw (← e) at a)) s) in
        ground (arith, le, none, own)

    equal_stage :
        IsUserStage annotated (find_equal_files candidates user.pages_number) settings user files
    equal_stage =
        let (found, chosen, selected, exact) =
          find_equal_files_total candidates user.pages_number candidates-IsDistinct in
        let moves =
          create_tasks-IsMoved settings [] found user files d c
            (filter_by-IsSelection _ [] files found selected) in
        record {
          found = found;
          chosen = chosen;
          moves = moves;
          nonneg =
              nonneg_exact found _ (elim exact [ inl nothing ↦ inl nothing.0 | inr sum ↦ inr sum ])
                h moves.load;
          foreign = selection-foreign found selected;
          owned = create_tasks_owner settings found user files;
        }

    small_stage :
        IsUserStage annotated (find_small_files candidates user.pages_number) settings user files
    small_stage =
        let (found, chosen, selected, fit) =
          find_small_files_total candidates user.pages_number candidates-IsDistinct h in
        let moves =
          create_tasks-IsMoved settings [] found user files d c
            (filter_by-IsSelection _ [] files found selected) in
        record {
          found = found;
          chosen = chosen;
          moves = moves;
          nonneg = nonneg_fit (sum (numbers found)) _ fit moves.load;
          foreign = selection-foreign found selected;
          owned = create_tasks_owner settings found user files;
        }

  -- The loop body returns, and its two stages together move pages to the user.
  pub record IsUserStep (annotated : AnnotatedFilesPages) (settings : Settings) (user : User F)
      (files : List FileItem) : Type 0 where
    pub number : ℕ
    pub tasks : List Task
    pub user' : User F
    pub files' : List FileItem
    pub returned : distribute_to_user annotated settings user files ≡ ok (tasks, user', files')
    pub moves : IsMoved number user files tasks user' files'
    pub nonneg : pos 0 ≤ℤ user'.pages_number
    pub foreign :
        (u id page : ℕ) → annotates annotated u id page ≡ true → covered_by u id page tasks ≡ 0
    pub owned : All (λ t. t.user_id ≡ user.user_id) tasks

  pub distribute_to_user_total :
      (annotated : AnnotatedFilesPages) (settings : Settings) (user : User F)
      (files : List FileItem)
      → IsDistinct files
      → All IsConsistent files
      → pos 0 ≤ℤ user.pages_number
      → IsUserStep annotated settings user files
  unfolding distribute_to_user
  distribute_to_user_total annotated settings user files d c h =
      let a = equal_stage annotated settings user files d c h user.user_id refl in
      let (tasks, user', files') = create_tasks settings a.found user files in
      let b =
        small_stage annotated settings user' files' a.moves.distinct a.moves.consistent a.nonneg
          user.user_id a.moves.same_user in
      let (more, user'', files'') = create_tasks settings b.found user' files' in
      record {
        number = sum (numbers a.found) + sum (numbers b.found);
        tasks = tasks ++ more;
        user' = user'';
        files' = files'';
        returned = rw a.chosen (rw b.chosen);
        moves =
            IsMoved-trans (sum (numbers a.found)) (sum (numbers b.found)) user user' user'' files
              files' files'' tasks more a.moves b.moves;
        nonneg = b.nonneg;
        foreign = λ u id page h. omega (
          arith,
          covered_by-append u id page tasks more,
          a.foreign u id page h,
          b.foreign u id page h,
        );
        owned =
            All-append (λ t. t.user_id ≡ user.user_id) tasks more a.owned
              (owner_trans more a.moves.same_user b.owned);
      }
