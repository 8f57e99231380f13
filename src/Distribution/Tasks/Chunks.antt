-- ===== src/Distribution/Tasks/Chunks.antt =====
-- Cutting a list of pages into tasks loses no page, and every task has 1 to 50 pages.
use badgerdoc.Base.{
  ℕ, zero, suc, ◌+◌, ◌*◌, ◌≤◌, ◌<◌, ◌≡◌, refl, List, [], ◌∷◌, if◌then◌else◌, ◌==◌, take, drop,
  length, count, All, Bool-cases, inl, inr, arith, length-take, length-drop,
}
use badgerdoc.Distribution.Types.{max_pages, Settings, Task, covered, workload, IsSized}
use badgerdoc.Distribution.Tasks.{tasks_number, chunk_tasks}

count-take-drop : (x n : ℕ) (xs : List ℕ) → count x (take n xs) + count x (drop n xs) ≡ count x xs
count-take-drop x zero xs = omega arith
count-take-drop x (suc n) [] = refl
count-take-drop x (suc n) (y ∷ ys) = omega (arith, count-take-drop x n ys)

module _ (settings : Settings) (file user : ℕ) where
  covered-chunk :
      (id page times : ℕ) (pages : List ℕ)
      → let (tasks, left) = chunk_tasks settings file user times pages in
        covered id page tasks + (if file == id then count page left else 0)
        ≡ (if file == id then count page pages else 0)
  unfolding chunk_tasks
  covered-chunk id page zero pages = omega arith
  covered-chunk id page (suc times) pages =
      let ih = covered-chunk id page times (drop max_pages pages) in
      elim (Bool-cases (file == id)) [
        | inl same ↦ rw same (omega (arith, rw same at ih, count-take-drop page max_pages pages))
        | inr other ↦ rw other (omega (arith, rw other at ih))
      ]

  workload-chunk :
      (id times : ℕ) (pages : List ℕ)
      → let (tasks, left) = chunk_tasks settings file user times pages in
        workload id tasks + (if user == id then length left else 0)
        ≡ (if user == id then length pages else 0)
  unfolding chunk_tasks
  workload-chunk id zero pages = omega arith
  workload-chunk id (suc times) pages =
      let ih = workload-chunk id times (drop max_pages pages) in
      let cut = length-take max_pages pages in
      elim (Bool-cases (user == id)) [
        | inl same ↦ rw same (omega (arith, rw same at ih, cut, length-drop max_pages pages))
        | inr other ↦ rw other (omega (arith, rw other at ih))
      ]

  chunk_left :
      (times : ℕ) (pages : List ℕ)
      → length pages ≤ times * 50
      → length (chunk_tasks settings file user times pages).1 ≡ 0
  unfolding chunk_tasks
  chunk_left zero pages h = omega arith
  chunk_left (suc times) pages h =
      chunk_left times (drop max_pages pages) (omega (arith, length-drop max_pages pages))

  chunk-IsSized :
      (times : ℕ) (pages : List ℕ)
      → times * 50 < length pages + 50
      → All IsSized (chunk_tasks settings file user times pages).0
  unfolding chunk_tasks
  chunk-IsSized zero pages h = tt
  chunk-IsSized (suc times) pages h = (
    (omega (arith, length-take max_pages pages), omega (arith, length-take max_pages pages)),
    chunk-IsSized times (drop max_pages pages) (omega (arith, length-drop max_pages pages)),
  )

  chunk_owner :
      (times : ℕ) (pages : List ℕ)
      → All (λ t. t.user_id ≡ user) (chunk_tasks settings file user times pages).0
  unfolding chunk_tasks
  chunk_owner zero pages = tt
  chunk_owner (suc times) pages = (refl, chunk_owner times (drop max_pages pages))

  -- With `tasks_number` rounds the tasks hold the pages of the list, and each has 1 to 50 of them.
  pub record IsCut (pages : List ℕ) (tasks : List Task) (left : List ℕ) : Type 0 where
    pub pages_covered :
        (id page : ℕ) → covered id page tasks ≡ (if file == id then count page pages else 0)
    pub given : (id : ℕ) → workload id tasks ≡ (if user == id then length pages else 0)
    pub sized : All IsSized tasks
    pub owner : All (λ t. t.user_id ≡ user) tasks
    pub emptied : left ≡ []

nil_of_length : (xs : List ℕ) → length xs ≡ 0 → xs ≡ []
nil_of_length [] h = refl
nil_of_length (x ∷ xs) h = absurd (omega arith)

tasks_number-enough : (pages : List ℕ) → length pages ≤ tasks_number pages * 50
unfolding tasks_number
tasks_number-enough pages = ground arith

tasks_number-tight : (pages : List ℕ) → tasks_number pages * 50 < length pages + 50
unfolding tasks_number
tasks_number-tight pages = ground arith

-- The loop with `tasks_number` rounds empties the list of pages; its tasks hold the pages as often as
-- the list does, all for one file and one user, and each has 1 to 50 pages.
pub chunk_tasks-IsCut :
    (settings : Settings) (file user : ℕ) (pages : List ℕ)
    → let (tasks, left) = chunk_tasks settings file user (tasks_number pages) pages in
      IsCut settings file user pages tasks left
chunk_tasks-IsCut settings file user pages =
    let times = tasks_number pages in
    let left = (chunk_tasks settings file user times pages).1 in
    let empty : left ≡ [] =
      nil_of_length left (chunk_left settings file user times pages (tasks_number-enough pages)) in
    record {
      pages_covered =
          λ id page. ground (arith, covered-chunk settings file user id page times pages, empty);
      given = λ id. ground (arith, workload-chunk settings file user id times pages, empty);
      sized = chunk-IsSized settings file user times pages (tasks_number-tight pages);
      owner = chunk_owner settings file user times pages;
      emptied = empty;
    }
