-- ===== src/Distribution/Load/Progress.antt =====
-- The while loop of calculate_users_load ends, if all pages fit below the caps of the users, and never
-- ends if they do not.
use badgerdoc.Base.{
  ℕ, zero, suc, ◌*◌, ◌≤◌, ◌<◌, ◌≡◌, refl, ap, ◌∙◌, inl, inr, ℤ, pos, pos_part, neg_part, ◌+ℤ◌, ◌-ℤ◌,
  ◌≤ℤ◌, ◌==ℤ◌, leb_ℤ, ltb_ℤ, int_laws, +ℤ_parts, Bool, ok, raises, out_of_fuel, List, [], ◌∷◌,
  length, any_by, arith, Bool-cases, true, false,
}
use badgerdoc.Distribution.Types.{User}
use badgerdoc.Distribution.Load.{FloatOps, more_pages, fill_round, fill_loads, sum_loads}
use badgerdoc.Distribution.Load.Sort.{IsSame, IsSame-trans}
use badgerdoc.Distribution.Load.Fill.{IsCapped, IsRound, fill_round-IsRound, more_pages-IsMore}

sub_zero : (a : ℤ) → a -ℤ pos 0 ≡ a
sub_zero a = omega int_laws

module _ (ops : FloatOps) where
  open ops use {Float}

  abbrev below : ℕ → List (User Float) → Bool
  below cap = any_by (λ u. ltb_ℤ u.pages_number (pos cap))

  -- With no user below the cap the loads are at least the caps.
  sum_full :
      (cap : ℕ) (users : List (User Float))
      → below cap users ≡ false
      → pos (length users * cap) ≤ℤ sum_loads users
  unfolding sum_loads
  sum_full cap [] h = omega arith
  sum_full cap (u ∷ users) h = elim (Bool-cases (ltb_ℤ u.pages_number (pos cap))) [
    | inl low ↦ ground (arith, low)
    | inr high ↦
        let rest = sum_full cap users (ground (arith, high)) in
        let le : pos cap ≤ℤ u.pages_number = ground (arith, high) in
        omega (arith, rest, le, +ℤ_parts u.pages_number (sum_loads users))
  ]

  -- With no user above the cap they are at most the caps.
  sum_capped :
      (cap : ℕ) (users : List (User Float))
      → IsCapped ops cap users
      → sum_loads users ≤ℤ pos (length users * cap)
  unfolding sum_loads
  sum_capped cap [] h = omega arith
  sum_capped cap (u ∷ users) h =
      omega (arith, sum_capped cap users h.1, h.0, +ℤ_parts u.pages_number (sum_loads users))

  -- A round with pages left and a user below the cap hands out at least one page.
  fill_round_progress :
      (cap : ℕ) (left : ℤ) (users : List (User Float))
      → (left ==ℤ pos 0) ≡ false
      → below cap users ≡ true
      → ((fill_round ops cap left users).0 +ℤ pos 1) ≤ℤ left
  unfolding fill_round
  fill_round_progress cap left [] h k = cc
  fill_round_progress cap left (user ∷ users) h k =
      elim (Bool-cases (ltb_ℤ user.pages_number (pos cap))) [
        | inl low ↦
            let pages = more_pages ops cap left user in
            let rest = fill_round-IsRound ops cap (left -ℤ pages) users in
            let one = (more_pages-IsMore ops cap left user).some low in
            rw h (omega (int_laws, rest.fewer, one))
        | inr high ↦
            let later : below cap users ≡ true = ground (arith, high, k) in
            rw (h, high, sub_zero left) (fill_round_progress cap left users h later)
      ]

  pub record IsFilled (fuel cap : ℕ) (left : ℤ) (users : List (User Float)) : Type 0 where
    pub users' : List (User Float)
    pub returned : fill_loads ops fuel cap left users ≡ ok users'
    pub same : IsSame users users'
    pub capped : IsCapped ops cap users → IsCapped ops cap users'

  -- The loads and the pages that are left are `total` pages, and the caps hold as many.
  abbrev pub Holds : ℕ → ℕ → ℤ → List (User Float) → Type 0
  Holds total cap left users = (left +ℤ sum_loads users ≡ pos total) × (total ≤ length users * cap)

  round_possible :
      (total cap : ℕ) (left : ℤ) (users : List (User Float))
      → Holds total cap left users
      → pos 1 ≤ℤ left
      → below cap users ≡ true
  round_possible total cap left users (sum, room) h = elim (Bool-cases (below cap users)) [
    | inl low ↦ low
    | inr full ↦ absurd (
        omega (
          arith,
          sum_full cap users full,
          ap pos_part sum,
          ap neg_part sum,
          +ℤ_parts left (sum_loads users),
        ))
  ]

  round-Holds :
      (total cap : ℕ) (left left' : ℤ) (users users' : List (User Float))
      → Holds total cap left users
      → IsRound ops cap left users left' users'
      → Holds total cap left' users'
  round-Holds total cap left left' users users' (sum, room) r =
      (r.balance ∙ sum, rw r.same.same_number room)

  -- Fuel for as many rounds as there are pages left is enough.
  pub fill_loads_total :
      (fuel total cap : ℕ) (left : ℤ) (users : List (User Float))
      → Holds total cap left users
      → pos_part left < fuel
      → IsFilled fuel cap left users
  unfolding fill_loads
  fill_loads_total zero total cap left users w h = absurd (omega arith)
  fill_loads_total (suc fuel) total cap left users w h = elim (Bool-cases (leb_ℤ left (pos 0))) [
    | inl done ↦ record {
      users' = users;
      returned = rw done;
      same = record { same_users = λ id. refl; same_number = refl };
      capped = λ c. c;
    }
    | inr more ↦
        let r = fill_round-IsRound ops cap left users in
        let nonzero : (left ==ℤ pos 0) ≡ false = ground (arith, more) in
        let low = round_possible total cap left users w (ground (arith, more)) in
        let progress = fill_round_progress cap left users nonzero low in
        let (left', users') = fill_round ops cap left users in
        let smaller : pos_part left' < fuel =
          ground (arith, more, progress, +ℤ_parts left' (pos 1)) in
        let f =
          fill_loads_total fuel total cap left' users'
            (round-Holds total cap left left' users users' w r) smaller in
        record {
          users' = f.users';
          returned = rw more f.returned;
          same = IsSame-trans r.same f.same;
          capped = λ c. f.capped (r.capped c);
        }
  ]

  -- If the users cannot hold the pages, every round leaves some: the loop does not end.
  pub fill_loads_endless :
      (fuel total cap : ℕ) (left : ℤ) (users : List (User Float))
      → left +ℤ sum_loads users ≡ pos total
      → length users * cap < total
      → IsCapped ops cap users
      → fill_loads ops fuel cap left users ≡ raises out_of_fuel
  unfolding fill_loads
  fill_loads_endless zero total cap left users sum over c = refl
  fill_loads_endless (suc fuel) total cap left users sum over c =
      let (left', users') = fill_round ops cap left users in
      let r = fill_round-IsRound ops cap left users in
      let more : leb_ℤ left (pos 0) ≡ false = ground (
        arith,
        sum_capped cap users c,
        ap pos_part sum,
        ap neg_part sum,
        +ℤ_parts left (sum_loads users),
      ) in
      rw more (
        fill_loads_endless fuel total cap left' users' (r.balance ∙ sum)
          (rw r.same.same_number over) (r.capped c))
