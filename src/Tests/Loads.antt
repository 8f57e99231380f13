-- ===== src/Tests/Loads.antt =====
-- calculate_users_load on small inputs: a fair division, the load below zero that rounding leaves to
-- the first of many equal users, and the laws at these inputs.
use badgerdoc.Base.{
  ℕ, ◌*◌, ◌≡◌, refl, ◌+ℤ◌, ◌-ℤ◌, ◌*ℤ◌, ℤ, pos, negsuc, Call, ok, raises, out_of_fuel, ◌>>=◌, List,
  [], ◌∷◌, arith,
}
use badgerdoc.Distribution.Types.{User, total_pages}
use badgerdoc.Distribution.Load.{calculate_users_load, sum_loads, find_users_share_loads}
use badgerdoc.Distribution.Load.Laws.{
  calculate_users_load-sum, calculate_users_load_total, calculate_users_load_endless,
}
use badgerdoc.Distribution.Load.Sort.{IsSame}
use badgerdoc.Tests.Fractions.{fractions}
use badgerdoc.Tests.Samples.{Float, team, team_loaded, crowd, files, file, user}

abbrev pages_of : List (User Float) → List (ℕ × ℤ)
pages_of [] = []
pages_of (u ∷ us) = (u.user_id, u.pages_number) ∷ pages_of us

abbrev loads_of : Call (List (User Float)) → Call (List (ℕ × ℤ))
loads_of r = r >>= λ us. ok (pages_of us)

-- 67 pages; the third user has work from other jobs.
pub team_calculated : calculate_users_load fractions 9 files team 1 ≡ ok team_loaded
unfolding calculate_users_load ◌+ℤ◌ ◌-ℤ◌ ◌*ℤ◌
team_calculated = refl

-- With coverage 2 each page is to be annotated twice.
team_twice :
    loads_of (calculate_users_load fractions 9 files team 2)
    ≡ ok ((1, pos 59) ∷ (2, pos 60) ∷ (3, pos 15) ∷ [])
unfolding calculate_users_load ◌+ℤ◌ ◌-ℤ◌ ◌*ℤ◌
team_twice = refl

-- 15 pages for ten equal users: each share is rounded to 2, and the first user is left with -3.
crowd_loads :
    loads_of (calculate_users_load fractions 9 (file 7 15 ∷ []) crowd 1)
    ≡ ok (
        (1, negsuc 2)
        ∷ (2, pos 2)
        ∷ (3, pos 2)
        ∷ (4, pos 2)
        ∷ (5, pos 2)
        ∷ (6, pos 2)
        ∷ (7, pos 2)
        ∷ (8, pos 2)
        ∷ (9, pos 2)
        ∷ (10, pos 2)
        ∷ [])
unfolding calculate_users_load ◌+ℤ◌ ◌-ℤ◌ ◌*ℤ◌
crowd_loads = refl

calculate_users_load-sum_example :
    (sum_loads team_loaded ≡ pos (total_pages files * 1)) × IsSame team team_loaded
calculate_users_load-sum_example = calculate_users_load-sum fractions 9 files team 1 team_calculated

abbrev shared : User Float → ℤ → User Float
shared u share = record u { share_load = (share, 32562000) }

abbrev team_shared : List (User Float)
team_shared =
    shared (user 1 100 0) (pos 4824000)
    ∷ shared (user 2 100 0) (pos 4824000)
    ∷ shared (user 3 100 60) (pos 1206000)
    ∷ []

abbrev share_sum : Float
share_sum = (pos 11508320842776000000000, 34524962528328000000000)

team-share_sum :
    find_users_share_loads fractions team 67 (pos 67, 3) 300 60 ≡ ok (share_sum, team_shared)
unfolding find_users_share_loads ◌+ℤ◌ ◌-ℤ◌ ◌*ℤ◌
team-share_sum = refl

calculate_users_load_total_example :
    (fuel : ℕ) × (users' : List (User Float)) × (calculate_users_load fractions fuel files team 2
      ≡ ok users')
unfolding find_users_share_loads ◌+ℤ◌ ◌-ℤ◌ ◌*ℤ◌
calculate_users_load_total_example =
    calculate_users_load_total fractions files team 2 share_sum team_shared (omega arith) refl
      team-share_sum refl (omega arith)

-- One user with the share of one.
abbrev alone_sum : Float
alone_sum = (pos 6700, 6700)

abbrev alone_shared : List (User Float)
alone_shared = record (user 1 100 0) { share_load = (pos 6700, 6700) } ∷ []

calculate_users_load_endless_example :
    calculate_users_load fractions 9 files (user 1 100 0 ∷ []) 2 ≡ raises out_of_fuel
unfolding find_users_share_loads ◌+ℤ◌ ◌-ℤ◌ ◌*ℤ◌
calculate_users_load_endless_example =
    calculate_users_load_endless fractions 9 files (user 1 100 0 ∷ []) 2 alone_sum alone_shared
      (omega arith) (omega arith) refl refl refl
