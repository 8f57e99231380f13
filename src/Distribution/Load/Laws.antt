-- ===== src/Distribution/Load/Laws.antt =====
-- calculate_users_load: the loads add up to the pages that are to be given out; when it returns, and
-- when it does not.
use badgerdoc.Base.{
  ℕ, suc, ◌*◌, ◌≤ℤ◌, ◌≤◌, ◌<◌, ◌≡◌, refl, ◌∙◌, ℤ, pos, pos_part, ◌+ℤ◌, ◌-ℤ◌, ok, raises,
  out_of_fuel, >>=-eq-ok, List, length, arith, false,
}
use badgerdoc.Distribution.Types.{FileItem, User, total_pages}
use badgerdoc.Distribution.Load.{
  FloatOps, truediv, find_users_share_loads, first_loads, fill_loads, sum_loads, sum_by, sort_users,
  calculate_users_load,
}
use badgerdoc.Distribution.Load.Sort.{IsSame, IsSame-trans, sort-IsSame, sum-sort, sort-All}
use badgerdoc.Distribution.Load.Fill.{IsCapped}
use badgerdoc.Distribution.Load.Progress.{fill_loads_total, fill_loads_endless}
use badgerdoc.Distribution.Load.Conserve.{
  find_users_share_loads-IsSame, first_loads-IsFirst, first_loads_total, fill_loads-IsSame,
  add_to_first-sum, add_to_first_total, IsFirst,
}

caps : (s c n : ℕ) → c ≤ n → s * c ≤ n * s
caps s c n h = grind arith

exceeds : (s c n : ℕ) → 0 < s → n < c → n * s < s * c
exceeds s c n h k = grind arith

module _ (ops : FloatOps) where
  open ops use {Float, of_int, div, is_zero}

  -- Whenever calculate_users_load returns, the loads add up to the pages of all files times the
  -- coverage, whatever the floats do, and the users are those that were given.
  pub calculate_users_load-sum :
      (fuel : ℕ) (files : List FileItem) (users : List (User Float)) (coverage : ℕ)
      {users' : List (User Float)}
      → calculate_users_load ops fuel files users coverage ≡ ok users'
      → (sum_loads users' ≡ pos (total_pages files * coverage)) × IsSame users users'
  unfolding calculate_users_load
  calculate_users_load-sum fuel files users coverage h =
      let s = total_pages files in
      let (average, e₁, h₁) =
        >>=-eq-ok (truediv ops (of_int (pos s)) (of_int (pos (length users)))) _ h in
      let (shares, e₂, h₂) =
        >>=-eq-ok
          (find_users_share_loads ops users s average (sum_by (λ u. u.default_load) users)
            (sum_by (λ u. u.overall_load) users))
          _ h₁ in
      let (loads, e₃, h₃) =
        >>=-eq-ok (first_loads ops (s * coverage) s shares.0 (pos (s * coverage)) shares.1) _ h₂ in
      let (filled, e₄, h₄) = >>=-eq-ok (fill_loads ops fuel s loads.0 (sort_users loads.1)) _ h₃ in
      let (sum, same) = add_to_first-sum (pos (s * coverage)) filled h₄ in
      let shared =
        find_users_share_loads-IsSame ops users s average (sum_by (λ u. u.default_load) users)
          (sum_by (λ u. u.overall_load) users) {sum = shares.0} {users' = shares.1} e₂ in
      let first =
        first_loads-IsFirst ops (s * coverage) s shares.0 (pos (s * coverage)) shares.1 e₃ in
      let fill = fill_loads-IsSame ops fuel s loads.0 (sort_users loads.1) e₄ in
      (
        sum,
        IsSame-trans shared
            (IsSame-trans first.same (IsSame-trans (sort-IsSame loads.1) (IsSame-trans fill same))),
      )

  -- The while loop starts from loads that make up the pages together with what is left, and none
  -- above the number of all pages.
  start_sum :
      (total cap : ℕ) (n : ℕ) (left : ℤ) (users loaded : List (User Float))
      → IsFirst ops cap (pos total) users left loaded
      → length users ≡ n
      → (left +ℤ sum_loads (sort_users loaded) ≡ pos total)
        × (length (sort_users loaded) ≡ n)
        × IsCapped ops cap (sort_users loaded)
  start_sum total cap n left users loaded f e =
      let sorted = sort-IsSame loaded in
      (
        rw (sum-sort loaded) f.balance,
        sorted.same_number ∙ (f.same.same_number ∙ e),
        sort-All (λ u. u.pages_number ≤ℤ pos cap) loaded f.capped,
      )

  -- If neither the number of users nor the sum of the share loads is zero as a float, and there are at
  -- least as many users as the coverage, then calculate_users_load returns with enough rounds.
  pub calculate_users_load_total :
      (files : List FileItem) (users : List (User Float)) (coverage : ℕ) (share_sum : Float)
      (shared : List (User Float))
      → 0 < length users
      → is_zero (of_int (pos (length users))) ≡ false
      → find_users_share_loads ops users
          (total_pages files)
          (div (of_int (pos (total_pages files))) (of_int (pos (length users))))
          (sum_by (λ u. u.default_load) users)
          (sum_by (λ u. u.overall_load) users)
        ≡ ok (share_sum, shared)
      → is_zero share_sum ≡ false
      → coverage ≤ length users
      → (fuel : ℕ) × (users' : List (User Float)) × (calculate_users_load ops fuel files users
            coverage
          ≡ ok users')
  unfolding calculate_users_load truediv
  calculate_users_load_total files users coverage share_sum shared some n shares z cover =
      let s = total_pages files in
      let (loads, e₃) =
        first_loads_total ops (s * coverage) s share_sum (pos (s * coverage)) shared z in
      let same =
        find_users_share_loads-IsSame ops users s
          (div (of_int (pos s)) (of_int (pos (length users)))) (sum_by (λ u. u.default_load) users)
          (sum_by (λ u. u.overall_load) users) shares in
      let (sum, number, capped) =
        start_sum (s * coverage) s (length users) loads.0 shared loads.1
          (first_loads-IsFirst ops (s * coverage) s share_sum (pos (s * coverage)) shared e₃)
          same.same_number in
      let room : s * coverage ≤ length (sort_users loads.1) * s =
        rw number (caps s coverage (length users) cover) in
      let fuel = suc (pos_part loads.0) in
      let f =
        fill_loads_total ops fuel (s * coverage) s loads.0 (sort_users loads.1) (sum, room)
          (omega arith) in
      let (users', last) =
        add_to_first_total (pos (s * coverage) -ℤ sum_loads f.users') f.users'
          (omega (arith, f.same.same_number, number)) in
      (fuel, users', rw n (rw shares (rw e₃ (rw f.returned last))))

  -- If the files have pages, there are users but fewer than the coverage, and neither their number nor the
  -- sum of the share loads, which is found, is zero as a float, then the while loop of calculate_users_load
  -- never ends: it runs out of any number of rounds.
  pub calculate_users_load_endless :
      (fuel : ℕ) (files : List FileItem) (users : List (User Float)) (coverage : ℕ)
      (share_sum : Float) (shared : List (User Float))
      → 0 < total_pages files
      → length users < coverage
      → is_zero (of_int (pos (length users))) ≡ false
      → find_users_share_loads ops users
          (total_pages files)
          (div (of_int (pos (total_pages files))) (of_int (pos (length users))))
          (sum_by (λ u. u.default_load) users)
          (sum_by (λ u. u.overall_load) users)
        ≡ ok (share_sum, shared)
      → is_zero share_sum ≡ false
      → calculate_users_load ops fuel files users coverage ≡ raises out_of_fuel
  unfolding calculate_users_load truediv
  calculate_users_load_endless fuel files users coverage share_sum shared some short n shares z =
      let s = total_pages files in
      let (loads, e₃) =
        first_loads_total ops (s * coverage) s share_sum (pos (s * coverage)) shared z in
      let same =
        find_users_share_loads-IsSame ops users s
          (div (of_int (pos s)) (of_int (pos (length users)))) (sum_by (λ u. u.default_load) users)
          (sum_by (λ u. u.overall_load) users) shares in
      let (sum, number, capped) =
        start_sum (s * coverage) s (length users) loads.0 shared loads.1
          (first_loads-IsFirst ops (s * coverage) s share_sum (pos (s * coverage)) shared e₃)
          same.same_number in
      let over : length (sort_users loads.1) * s < s * coverage =
        rw number (exceeds s coverage (length users) some short) in
      let endless =
        fill_loads_endless ops fuel (s * coverage) s loads.0 (sort_users loads.1) sum over capped in
      rw n (rw shares (rw e₃ (rw endless refl)))
