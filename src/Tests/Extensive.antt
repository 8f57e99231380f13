-- ===== src/Tests/Extensive.antt =====
-- distribute_tasks_extensively on small inputs: it may raise IndexError although the loads of the users add up.
use badgerdoc.Base.{ℕ, ◌≡◌, refl, ◌+ℤ◌, ◌-ℤ◌, ◌*ℤ◌, Call, ok, raises, index_error, List, [], ◌∷◌}
use badgerdoc.Distribution.Types.{FileItem, User, Task, new_task}
use badgerdoc.Distribution.Load.{calculate_users_load}
use badgerdoc.Distribution.Extensive.{distribute_tasks_extensively}
use badgerdoc.Distribution.Extensive.Laws.{
  Ends, IsExtensive, distribute_tasks_extensively-IsExtensive,
}
use badgerdoc.Tests.Fractions.{fractions}
use badgerdoc.Tests.Samples.{Float, file, user, to_annotate}

abbrev three_users : List (User Float)
three_users = user 1 100 0 ∷ user 2 100 0 ∷ user 3 100 0 ∷ []

abbrev two_files : List FileItem
two_files = file 7 5 ∷ file 8 5 ∷ []

abbrev returned_by : Call (List (User Float)) → List (User Float)
returned_by (ok users) = users
returned_by _ = []

-- The loads are 6, 7 and 7; the last file has one user with 6 pages and two with 2 pages left.
three_stuck :
    distribute_tasks_extensively fractions 9 two_files three_users to_annotate 2
    ≡ raises index_error
unfolding distribute_tasks_extensively calculate_users_load ◌+ℤ◌ ◌-ℤ◌ ◌*ℤ◌
three_stuck = refl

abbrev one_file : List FileItem
one_file = file 7 3 ∷ []

abbrev task : ℕ → List ℕ → Task
task user pages = new_task to_annotate 7 user pages

three_tasks :
    distribute_tasks_extensively fractions 9 one_file three_users to_annotate 2
    ≡ ok (task 1 (1 ∷ 2 ∷ []) ∷ task 2 (3 ∷ []) ∷ task 2 (1 ∷ []) ∷ task 3 (2 ∷ 3 ∷ []) ∷ [])
unfolding distribute_tasks_extensively calculate_users_load ◌+ℤ◌ ◌-ℤ◌ ◌*ℤ◌
three_tasks = refl

abbrev one_loaded : List (User Float)
one_loaded = returned_by (calculate_users_load fractions 9 one_file three_users 2)

distribute_tasks_extensively-IsExtensive_example :
    Ends
      (IsExtensive 2 one_file)
      (distribute_tasks_extensively fractions 9 one_file three_users to_annotate 2)
unfolding calculate_users_load ◌+ℤ◌ ◌-ℤ◌ ◌*ℤ◌
distribute_tasks_extensively-IsExtensive_example =
    distribute_tasks_extensively-IsExtensive fractions 9 one_file three_users one_loaded to_annotate
      2 refl
