-- ===== src/Distribution/Load/Fill.antt =====
-- The while loop of calculate_users_load: each round hands out at least one page as long as a user
-- is below the number of all pages, and no round takes a user above it.
use badgerdoc.Base.{
  ℕ, ◌≡◌, refl, ap, inl, inr, ℤ, pos, pos_part, neg_part, ◌+ℤ◌, ◌-ℤ◌, ◌≤ℤ◌, ◌==ℤ◌, ltb_ℤ, min_ℤ,
  max_ℤ, int_laws, +ℤ_parts, -ℤ_parts, List, [], ◌∷◌, All, arith, Bool-cases, true,
}
use badgerdoc.Distribution.Types.{User}
use badgerdoc.Distribution.Load.{FloatOps, more_pages, fill_round, sum_loads}
use badgerdoc.Distribution.Load.Sort.{IsSame}

min_bounds : (a b : ℤ) → (min_ℤ a b ≤ℤ a) × (pos 1 ≤ℤ a → pos 1 ≤ℤ b → pos 1 ≤ℤ min_ℤ a b)
min_bounds a b = (ground arith, λ h k. ground arith)

max_bound : (a b : ℤ) → b ≤ℤ max_ℤ a b
max_bound a b = ground arith

share_bounds :
    (cap : ℕ) (p r : ℤ)
    → ltb_ℤ p (pos cap) ≡ true
    → (pos 1 ≤ℤ min_ℤ (pos cap -ℤ p) (max_ℤ r (pos 1)))
      × ((p +ℤ min_ℤ (pos cap -ℤ p) (max_ℤ r (pos 1))) ≤ℤ pos cap)
share_bounds cap p r h =
    let room : pos 1 ≤ℤ (pos cap -ℤ p) = ground (arith, -ℤ_parts (pos cap) p, h) in
    let m = max_ℤ r (pos 1) in
    let b = min_bounds (pos cap -ℤ p) m in
    (
      b.1 room (max_bound r (pos 1)),
      omega (arith, b.0, -ℤ_parts (pos cap) p, +ℤ_parts p (min_ℤ (pos cap -ℤ p) m)),
    )

regroup : (l l' u p s s' : ℤ) → l' +ℤ s' ≡ l -ℤ p +ℤ s → l' +ℤ (u +ℤ p +ℤ s') ≡ l +ℤ (u +ℤ s)
regroup l l' u p s s' h =
    omega (int_laws, ap pos_part h, ap neg_part h, +ℤ_parts l' s', +ℤ_parts (l -ℤ p) s)

module _ (ops : FloatOps) where
  open ops use {Float}

  abbrev pub IsCapped : ℕ → List (User Float) → Type 0
  IsCapped cap = All (λ u. u.pages_number ≤ℤ pos cap)

  -- What a round adds: at least one page below the cap and never beyond it, nothing at the cap.
  pub record IsMore (cap : ℕ) (user : User Float) (pages : ℤ) : Type 0 where
    pub nonneg : pos 0 ≤ℤ pages
    pub capped : user.pages_number ≤ℤ pos cap → (user.pages_number +ℤ pages) ≤ℤ pos cap
    pub some : ltb_ℤ user.pages_number (pos cap) ≡ true → pos 1 ≤ℤ pages

  pub more_pages-IsMore :
      (cap : ℕ) (left : ℤ) (user : User Float) → IsMore cap user (more_pages ops cap left user)
  more_pages-IsMore cap left user = elim (Bool-cases (ltb_ℤ user.pages_number (pos cap))) [
    | inl below ↦
        let b =
          share_bounds cap user.pages_number (ops.round (ops.mul (ops.of_int left) user.share_load))
            below in
        rw below (record { nonneg = omega (arith, b.0); capped = λ _. b.1; some = λ _. b.0 })
    | inr full ↦ rw full (record {
      nonneg = omega arith;
      capped = λ h. omega (arith, h, +ℤ_parts user.pages_number (pos 0));
      some = λ h. cc;
    })
  ]

  pub record IsRound (cap : ℕ) (left : ℤ) (users : List (User Float)) (left' : ℤ)
      (users' : List (User Float)) : Type 0 where
    pub same : IsSame users users'
    pub balance : left' +ℤ sum_loads users' ≡ left +ℤ sum_loads users
    pub capped : IsCapped cap users → IsCapped cap users'
    pub fewer : left' ≤ℤ left

  fill_one :
      (cap : ℕ) (left left' : ℤ) (user : User Float) (users users' : List (User Float)) (pages : ℤ)
      → IsMore cap user pages
      → IsRound cap (left -ℤ pages) users left' users'
      → IsRound cap left
          (user ∷ users)
          left'
          (record user { pages_number = user.pages_number +ℤ pages } ∷ users')
  unfolding sum_loads
  fill_one cap left left' user users users' pages m r = record {
    same = record {
      same_users = λ id. omega (arith, r.same.same_users id);
      same_number = omega (arith, r.same.same_number);
    };
    balance =
        regroup left left' user.pages_number pages (sum_loads users) (sum_loads users') r.balance;
    capped = λ h. (m.capped h.0, r.capped h.1);
    fewer = omega (int_laws, m.nonneg, r.fewer);
  }

  pub fill_round-IsRound :
      (cap : ℕ) (left : ℤ) (users : List (User Float))
      → let (left', users') = fill_round ops cap left users in IsRound cap left users left' users'
  unfolding fill_round
  fill_round-IsRound cap left [] = record {
    same = record { same_users = λ id. refl; same_number = refl };
    balance = refl;
    capped = λ h. h;
    fewer = omega arith;
  }
  fill_round-IsRound cap left (user ∷ users) = elim (Bool-cases (left ==ℤ pos 0)) [
    | inl done ↦ rw done (record {
      same = record { same_users = λ id. refl; same_number = refl };
      balance = refl;
      capped = λ h. h;
      fewer = omega arith;
    })
    | inr more ↦
        let pages = more_pages ops cap left user in
        rw more (
          fill_one cap left _ user users _ pages (more_pages-IsMore cap left user)
            (fill_round-IsRound cap (left -ℤ pages) users))
  ]
