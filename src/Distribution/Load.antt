-- ===== src/Distribution/Load.antt =====
-- annotation/annotation/distribution/main.py: find_users_share_loads and calculate_users_load, which
-- divide the number of pages among the users by their default and overall loads.
pub mod Sort
pub mod Fill
pub mod Progress
pub mod Conserve
pub mod Laws
use badgerdoc.Base.{
  ℕ, zero, suc, ◌+◌, ◌*◌, ℤ, pos, ◌+ℤ◌, ◌-ℤ◌, ◌==ℤ◌, leb_ℤ, ltb_ℤ, min_ℤ, max_ℤ, Bool, Call, ok,
  raises, index_error, zero_division, out_of_fuel, ◌>>=◌, List, [], ◌∷◌, if◌then◌else◌, ◌==◌,
  length,
}
use badgerdoc.Distribution.Types.{FileItem, User, total_pages}

-- Python's floats: the conversion of an int, `+`, `*`, `/` by a number that is not zero, the test for
-- zero, and `round` to the nearest int. Nothing is assumed of them.
pub record FloatOps : Type 1 where
  pub Float : Type 0
  pub of_int : ℤ → Float
  pub add : Float → Float → Float
  pub mul : Float → Float → Float
  pub div : Float → Float → Float
  pub is_zero : Float → Bool
  pub round : Float → ℤ

-- `users[0]["pages_number"] += …`
pub add_to_first : {F : Type 0} → ℤ → List (User F) → Call (List (User F))
add_to_first pages [] = raises index_error
add_to_first pages (u ∷ us) = ok (record u { pages_number = u.pages_number +ℤ pages } ∷ us)

-- `sum(x["pages_number"] for x in users)`
unfoldable pub sum_loads : {F : Type 0} → List (User F) → ℤ
sum_loads [] = pos 0
sum_loads (u ∷ us) = u.pages_number +ℤ sum_loads us

abbrev pub sum_by : {F : Type 0} → (User F → ℕ) → List (User F) → ℕ
sum_by f [] = 0
sum_by f (u ∷ us) = f u + sum_by f us

-- `users.sort(key=…, reverse=True)`: descending and stable.
pub insert_user : {F : Type 0} → User F → List (User F) → List (User F)
insert_user u [] = u ∷ []
insert_user u (v ∷ users) =
    let later = insert_user u users in
    if leb_ℤ v.pages_number u.pages_number then u ∷ v ∷ users else v ∷ later

unfoldable pub sort_users : {F : Type 0} → List (User F) → List (User F)
unfolding insert_user
sort_users [] = []
sort_users (u ∷ users) = insert_user u (sort_users users)

module _ (ops : FloatOps) where
  open ops use {Float, of_int, add, mul, div, is_zero, round}

  -- Python's `/`.
  pub truediv : Float → Float → Call Float
  truediv a b = if is_zero b then raises zero_division else ok (div a b)

  -- The body of the loop of find_users_share_loads: the user's new "share_load".
  pub share_load :
      (quantity all_job_pages_sum : ℕ) (average_job_pages : Float)
      (users_default_load users_overall_load : ℕ)
      → User Float
      → Call Float
  unfolding truediv
  share_load quantity all_job_pages_sum average_job_pages users_default_load users_overall_load
        user =
      let average_pages_deviation = pos users_overall_load -ℤ pos (user.overall_load * quantity) in
      let deviation =
        truediv (of_int average_pages_deviation) (of_int (pos (users_overall_load * quantity))) in
      do
        coefficient ← if users_overall_load == 0 then ok (of_int (pos 0)) else deviation
        let pages_deviation = mul coefficient average_job_pages
        let user_deviation_pages = add average_job_pages pages_deviation
        share ←
            if all_job_pages_sum == 0
            then ok (of_int (pos 1))
            else truediv user_deviation_pages (of_int (pos all_job_pages_sum))
        default_load_part ←
            truediv (of_int (pos user.default_load)) (of_int (pos users_default_load))
        ok (mul share default_load_part)

  pub share_loads :
      (quantity all_job_pages_sum : ℕ) (average_job_pages : Float)
      (users_default_load users_overall_load : ℕ)
      → List (User Float)
      → Call (List (User Float))
  unfolding share_load
  share_loads quantity pages average default overall [] = ok []
  share_loads quantity pages average default overall (user ∷ users) = do
    share ← share_load quantity pages average default overall user
    rest ← share_loads quantity pages average default overall users
    ok (record user { share_load = share } ∷ rest)

  pub sum_shares : Float → List (User Float) → Float
  sum_shares acc [] = acc
  sum_shares acc (user ∷ users) = sum_shares (add acc user.share_load) users

  unfoldable pub find_users_share_loads :
      (users : List (User Float)) (all_job_pages_sum : ℕ) (average_job_pages : Float)
      (users_default_load users_overall_load : ℕ)
      → Call (Float × List (User Float))
  unfolding share_loads sum_shares
  find_users_share_loads users all_job_pages_sum average_job_pages default overall = do
    users' ← share_loads (length users) all_job_pages_sum average_job_pages default overall users
    ok (sum_shares (of_int (pos 0)) users', users')

  -- The first loop of calculate_users_load: the pages that are left, and the users with a load.
  pub first_loads :
      (pages_with_coverage all_job_pages_sum : ℕ) (all_users_share_load : Float)
      → ℤ
      → List (User Float)
      → Call (ℤ × List (User Float))
  unfolding truediv
  first_loads total cap share_sum left [] = ok (left, [])
  first_loads total cap share_sum left (user ∷ users) = do
    share ← truediv user.share_load share_sum
    let pages = min_ℤ (round (mul (of_int (pos total)) share)) (pos cap)
    (left', rest) ← first_loads total cap share_sum (left -ℤ pages) users
    ok (left', record user { share_load = share; pages_number = pages } ∷ rest)

  -- What one round of the second loop adds to a user's load.
  abbrev pub more_pages : ℕ → ℤ → User Float → ℤ
  more_pages cap left user =
      if ltb_ℤ user.pages_number (pos cap)
      then min_ℤ (pos cap -ℤ user.pages_number)
          (max_ℤ (round (mul (of_int left) user.share_load)) (pos 1))
      else pos 0

  -- `for user in users:` inside the while loop.
  pub fill_round : (all_job_pages_sum : ℕ) → ℤ → List (User Float) → ℤ × List (User Float)
  fill_round cap left [] = (left, [])
  fill_round cap left (user ∷ users) =
      let pages = more_pages cap left user in
      let (left', users') = fill_round cap (left -ℤ pages) users in
      if left ==ℤ pos 0
      then (left, user ∷ users)
      else (left', record user { pages_number = user.pages_number +ℤ pages } ∷ users')

  -- `while pages_left_for_distribute > 0:`
  pub fill_loads : (fuel all_job_pages_sum : ℕ) → ℤ → List (User Float) → Call (List (User Float))
  unfolding fill_round
  fill_loads zero cap left users = raises out_of_fuel
  fill_loads (suc fuel) cap left users =
      let (left', users') = fill_round cap left users in
      let rest = fill_loads fuel cap left' users' in if leb_ℤ left (pos 0) then ok users else rest

  -- `fuel` bounds the rounds of the while loop.
  unfoldable pub calculate_users_load :
      (fuel : ℕ)
      → List FileItem
      → List (User Float)
      → (extensive_coverage : ℕ) → Call (List (User Float))
  unfolding truediv find_users_share_loads first_loads sort_users fill_loads add_to_first sum_loads
  calculate_users_load fuel files users extensive_coverage =
      let all_job_pages_sum = total_pages files in
      let pages_with_coverage = all_job_pages_sum * extensive_coverage in
      do
        average_job_pages ← truediv (of_int (pos all_job_pages_sum)) (of_int (pos (length users)))
        (share_sum, shared) ←
            find_users_share_loads users all_job_pages_sum average_job_pages
              (sum_by (λ u. u.default_load) users) (sum_by (λ u. u.overall_load) users)
        (left, loaded) ←
            first_loads pages_with_coverage all_job_pages_sum share_sum (pos pages_with_coverage)
              shared
        filled ← fill_loads fuel all_job_pages_sum left (sort_users loaded)
        add_to_first (pos pages_with_coverage -ℤ sum_loads filled) filled
