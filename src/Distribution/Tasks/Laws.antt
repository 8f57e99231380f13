-- ===== src/Distribution/Tasks/Laws.antt =====
-- create_tasks moves the pages of the files it is given into tasks, and takes their number from the
-- load of the user.
use mathlib.Core.List.{Memᴰ}
use badgerdoc.Base.{
  ℕ, ◌+◌, ◌≤◌, ◌≡◌, refl, ap, sym, ◌≢◌, pos, ◌-ℤ◌, sub-add_cancel, List, [], ◌∷◌, ◌++◌,
  if◌then◌else◌, ◌==◌, contains, length, count, sum, All, All-append, arith, true, Bool-cases, inl,
  inr,
}
use badgerdoc.Distribution.Types.{
  FileItem, User, Settings, item_pages, total, holders, IsDistinct, IsConsistent, covered,
  covered-append,
}
use badgerdoc.Distribution.Files.Laws.{IsSelection, numbers, contains-snoc, holders-mem}
use badgerdoc.Distribution.Tasks.{
  tasks_number, chunk_tasks, store_item, distributed_item, create_tasks,
}
use badgerdoc.Distribution.Tasks.Chunks.{chunk_tasks-IsCut}
use badgerdoc.Distribution.Tasks.Moves.{IsMoved, IsMoved-none, IsMoved-trans}

module _ (weight : FileItem → ℕ) where
  total-store_absent :
      (item : FileItem) (files : List FileItem)
      → holders item.file_id files ≡ 0
      → total weight (store_item item files) ≡ total weight files
  unfolding store_item
  total-store_absent item [] h = refl
  total-store_absent item (f ∷ fs) h = ground (arith, total-store_absent item fs)

  -- Changing the dict of one file exchanges its weight in every sum.
  total-store :
      (f item : FileItem) (files : List FileItem)
      → holders f.file_id files ≤ 1
      → item.file_id ≡ f.file_id
      → Memᴰ f files
      → total weight (store_item item files) + weight f ≡ total weight files + weight item
  unfolding store_item
  total-store f item [] d e m = elim m [ ]
  total-store f item (g ∷ files) d e (Memᴰ.head same) =
      ground (
        arith,
        ap weight same,
        ap (λ (x : FileItem). x.file_id) same,
        total-store_absent item files,
      )
  total-store f item (g ∷ files) d e (Memᴰ.tail m) =
      ground (arith, total-store f item files, m, holders-mem f files m)

mem-store :
    (f item : FileItem) (files : List FileItem)
    → item.file_id ≢ f.file_id
    → Memᴰ f files
    → Memᴰ f (store_item item files)
unfolding store_item
mem-store f item [] other m = elim m [ ]
mem-store f item (g ∷ files) other (Memᴰ.head same) =
    Memᴰ.head (ground (arith, ap (λ (x : FileItem). x.file_id) same))
mem-store f item (g ∷ files) other (Memᴰ.tail m) = Memᴰ.tail (mem-store f item files other m)

All-store :
    (P : FileItem → Type 0) (item : FileItem) (files : List FileItem)
    → P item
    → All P files
    → All P (store_item item files)
unfolding store_item
All-store P item [] p h = tt
All-store P item (f ∷ files) p h = elim (Bool-cases (f.file_id == item.file_id)) [
  | inl same ↦ rw same (p, All-store P item files p h.1)
  | inr other ↦ rw other (h.0, All-store P item files p h.1)
]

store-IsSelection :
    (item : FileItem) (taken : List ℕ) (files found : List FileItem)
    → contains item.file_id taken ≡ true
    → IsSelection taken files found
    → IsSelection taken (store_item item files) found
store-IsSelection item taken files [] t s = tt
store-IsSelection item taken files (f ∷ fs) t (m, fresh, s) = (
  mem-store f item files (λ e. ground (arith, ap (λ x. contains x taken) e)) m,
  fresh,
  store-IsSelection item (taken ++ f.file_id ∷ []) files fs
      (ground (arith, contains-snoc item.file_id f.file_id taken)) s,
)

All-mem :
    (P : FileItem → Type 0) {f : FileItem} (files : List FileItem)
    → Memᴰ f files
    → All P files
    → P f
All-mem P [] m h = elim m [ ]
All-mem P (g ∷ files) (Memᴰ.head same) h = rw same h.0
All-mem P (g ∷ files) (Memᴰ.tail m) h = All-mem P files m h.1

distributed_item_empty :
    (file : FileItem) (left : List ℕ) → left ≡ [] → item_pages (distributed_item file left) ≡ []
unfolding distributed_item
distributed_item_empty file left h = ground arith

module _ {F : Type 0} (settings : Settings) where
  -- One file of the list.
  create_task-IsMoved :
      (file : FileItem) (user : User F) (files : List FileItem)
      → IsDistinct files
      → All IsConsistent files
      → Memᴰ file files
      → let pages = item_pages file in
        let (tasks, left) =
          chunk_tasks settings file.file_id user.user_id (tasks_number pages) pages in
        IsMoved file.pages_number user files tasks
          (record user { pages_number = user.pages_number -ℤ pos file.pages_number })
          (store_item (distributed_item file left) files)
  unfolding distributed_item
  create_task-IsMoved file user files d c m =
      let pages = item_pages file in
      let cut = chunk_tasks-IsCut settings file.file_id user.user_id pages in
      let left = (chunk_tasks settings file.file_id user.user_id (tasks_number pages) pages).1 in
      let item = distributed_item file left in
      let empty : item_pages item ≡ [] = distributed_item_empty file left cut.emptied in
      let number : file.pages_number ≡ length pages = All-mem IsConsistent files m c in
      record {
        moved = λ id page.
            let stored =
              total-store (λ f. if f.file_id == id then count page (item_pages f) else 0) file item
                files (d file.file_id) refl m in
            ground (arith, stored, cut.pages_covered id page, ap (count page) empty);
        given = λ id. ground (arith, cut.given id, number);
        sized = cut.sized;
        same_user = refl;
        load = sub-add_cancel user.pages_number (pos file.pages_number);
        fewer =
            omega
              (arith, total-store (λ f. f.pages_number) file item files (d file.file_id) refl m);
        distinct = λ id. omega (
          arith,
          d id,
          total-store (λ f. if f.file_id == id then 1 else 0) file item files (d file.file_id) refl
              m,
        );
        consistent = All-store IsConsistent item files (ap length (sym empty)) c;
      }

  -- create_tasks takes exactly the pages of the files it is given, out of the files and out of the
  -- load of the user, and the tasks hold them.
  pub create_tasks-IsMoved :
      (taken : List ℕ) (found : List FileItem) (user : User F) (files : List FileItem)
      → IsDistinct files
      → All IsConsistent files
      → IsSelection taken files found
      → let (tasks, user', files') = create_tasks settings found user files in
        IsMoved (sum (numbers found)) user files tasks user' files'
  unfolding create_tasks
  create_tasks-IsMoved taken [] user files d c s = IsMoved-none user files d c
  create_tasks-IsMoved taken (file ∷ found) user files d c (m, fresh, s) =
      let pages = item_pages file in
      let (tasks, left) =
        chunk_tasks settings file.file_id user.user_id (tasks_number pages) pages in
      let item = distributed_item file left in
      let user' = record user { pages_number = user.pages_number -ℤ pos file.pages_number } in
      let files' = store_item item files in
      let one = create_task-IsMoved file user files d c m in
      let seen : contains item.file_id (taken ++ file.file_id ∷ []) ≡ true =
        ground (arith, contains-snoc file.file_id file.file_id taken) in
      let rest =
        create_tasks-IsMoved (taken ++ file.file_id ∷ []) found user' files' one.distinct
          one.consistent (store-IsSelection item (taken ++ file.file_id ∷ []) files found seen s) in
      IsMoved-trans file.pages_number (sum (numbers found)) user user' _ files files' _ tasks _ one
        rest

  -- All tasks of the call are the user's.
  pub create_tasks_owner :
      (found : List FileItem) (user : User F) (files : List FileItem)
      → All (λ t. t.user_id ≡ user.user_id) (create_tasks settings found user files).0
  unfolding create_tasks
  create_tasks_owner [] user files = tt
  create_tasks_owner (file ∷ found) user files =
      let pages = item_pages file in
      let (tasks, left) =
        chunk_tasks settings file.file_id user.user_id (tasks_number pages) pages in
      let user' = record user { pages_number = user.pages_number -ℤ pos file.pages_number } in
      let files' = store_item (distributed_item file left) files in
      All-append (λ t. t.user_id ≡ user.user_id) tasks _
        (chunk_tasks-IsCut settings file.file_id user.user_id pages).owner
        (create_tasks_owner found user' files')

  -- A file that is not among those given has no task.
  pub create_tasks_absent :
      (id page : ℕ) (found : List FileItem) (user : User F) (files : List FileItem)
      → holders id found ≡ 0
      → covered id page (create_tasks settings found user files).0 ≡ 0
  unfolding create_tasks
  create_tasks_absent id page [] user files h = refl
  create_tasks_absent id page (file ∷ found) user files h =
      let pages = item_pages file in
      let (tasks, left) =
        chunk_tasks settings file.file_id user.user_id (tasks_number pages) pages in
      let user' = record user { pages_number = user.pages_number -ℤ pos file.pages_number } in
      let files' = store_item (distributed_item file left) files in
      ground (
        arith,
        covered-append id page tasks (create_tasks settings found user' files').0,
        (chunk_tasks-IsCut settings file.file_id user.user_id pages).pages_covered id page,
        create_tasks_absent id page found user' files',
      )
