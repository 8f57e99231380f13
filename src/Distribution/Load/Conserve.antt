-- ===== src/Distribution/Load/Conserve.antt =====
-- What the stages of calculate_users_load before and after the while loop keep, whenever they return.
use badgerdoc.Base.{
  ℕ, zero, suc, ◌<◌, ◌≡◌, refl, ap, subst, inl, inr, ℤ, pos, pos_part, neg_part, ◌+ℤ◌, ◌-ℤ◌, ◌≤ℤ◌,
  leb_ℤ, min_ℤ, int_laws, +ℤ_parts, ok, >>=-eq-ok, List, [], ◌∷◌, length, arith, Bool-cases, false,
}
use badgerdoc.Distribution.Types.{User}
use badgerdoc.Distribution.Load.{
  FloatOps, truediv, share_load, share_loads, find_users_share_loads, first_loads, fill_round,
  fill_loads, sum_loads, add_to_first,
}
use badgerdoc.Distribution.Load.Sort.{IsSame, IsSame-trans}
use badgerdoc.Distribution.Load.Fill.{IsCapped, fill_round-IsRound}

min_le : (a b : ℤ) → min_ℤ a b ≤ℤ b
min_le a b = ground arith

regroup : (l l' p s : ℤ) → l' +ℤ s ≡ l -ℤ p → l' +ℤ (p +ℤ s) ≡ l
regroup l l' p s h = omega (int_laws, ap pos_part h, ap neg_part h, +ℤ_parts l' s)

IsSame-refl : {F : Type 0} (users : List (User F)) → IsSame users users
IsSame-refl users = record { same_users = λ id. refl; same_number = refl }

IsSame-cons :
    {F : Type 0} (u v : User F) (users users' : List (User F))
    → v.user_id ≡ u.user_id
    → IsSame users users'
    → IsSame (u ∷ users) (v ∷ users')
IsSame-cons u v users users' e s = record {
  same_users = λ id. ground (arith, e, s.same_users id);
  same_number = omega (arith, s.same_number);
}

pub ok_inj {ℓ} : {A : Type ℓ} {a b : A} → ok a ≡ ok b → a ≡ b
ok_inj h = cc

module _ (ops : FloatOps) where
  open ops use {Float, of_int, mul, div, is_zero, round}

  share_loads-IsSame :
      (n s : ℕ) (average : Float) (d o : ℕ) (users : List (User Float)) {users' : List (User Float)}
      → share_loads ops n s average d o users ≡ ok users'
      → IsSame users users'
  unfolding share_loads
  share_loads-IsSame n s average d o [] {users'} h = subst (IsSame []) (ok_inj h) (IsSame-refl [])
  share_loads-IsSame n s average d o (u ∷ users) {users'} h =
      let (share, e, h') = >>=-eq-ok (share_load ops n s average d o u) _ h in
      let (rest, e', last) = >>=-eq-ok (share_loads ops n s average d o users) _ h' in
      subst (IsSame (u ∷ users)) (ok_inj last) (
        IsSame-cons u (record u { share_load = share }) users rest refl
          (share_loads-IsSame n s average d o users e'))

  pub find_users_share_loads-IsSame :
      (users : List (User Float)) (s : ℕ) (average : Float) (d o : ℕ) {sum : Float}
      {users' : List (User Float)}
      → find_users_share_loads ops users s average d o ≡ ok (sum, users')
      → IsSame users users'
  unfolding find_users_share_loads
  find_users_share_loads-IsSame users s average d o {sum} {users'} h =
      let (shared, e, last) = >>=-eq-ok (share_loads ops (length users) s average d o users) _ h in
      subst (IsSame users) (ap (λ (p : Float × List (User Float)). p.1) (ok_inj last))
        (share_loads-IsSame (length users) s average d o users e)

  -- The first loop: what it gives out and what it leaves make up what there was.
  pub record IsFirst (cap : ℕ) (left : ℤ) (users : List (User Float)) (left' : ℤ)
      (users' : List (User Float)) : Type 0 where
    pub same : IsSame users users'
    pub balance : left' +ℤ sum_loads users' ≡ left
    pub capped : IsCapped ops cap users'

  IsFirst-cons :
      (cap : ℕ) (left left' : ℤ) (u : User Float) (users users' : List (User Float)) (share : Float)
      (p : ℤ)
      → IsFirst cap (left -ℤ min_ℤ p (pos cap)) users left' users'
      → IsFirst cap left
          (u ∷ users)
          left'
          (record u { share_load = share; pages_number = min_ℤ p (pos cap) } ∷ users')
  unfolding sum_loads
  IsFirst-cons cap left left' u users users' share p f = record {
    same = IsSame-cons u _ users users' refl f.same;
    balance = regroup left left' (min_ℤ p (pos cap)) (sum_loads users') f.balance;
    capped = (min_le p (pos cap), f.capped);
  }

  pub first_loads-IsFirst :
      (total cap : ℕ) (sum : Float) (left : ℤ) (users : List (User Float))
      {result : ℤ × List (User Float)}
      → first_loads ops total cap sum left users ≡ ok result
      → IsFirst cap left users result.0 result.1
  unfolding first_loads sum_loads
  first_loads-IsFirst total cap sum left [] h =
      subst (λ (r : ℤ × List (User Float)). IsFirst cap left [] r.0 r.1) (ok_inj h)
        (record { same = IsSame-refl []; balance = omega int_laws; capped = tt })
  first_loads-IsFirst total cap sum left (u ∷ users) h =
      let (share, e, h') = >>=-eq-ok (truediv ops u.share_load sum) _ h in
      let p = round (mul (of_int (pos total)) share) in
      let (rest, e', last) =
        >>=-eq-ok (first_loads ops total cap sum (left -ℤ min_ℤ p (pos cap)) users) _ h' in
      subst (λ (r : ℤ × List (User Float)). IsFirst cap left (u ∷ users) r.0 r.1) (ok_inj last)
        (IsFirst-cons cap left rest.0 u users rest.1 share p
          (first_loads-IsFirst total cap sum (left -ℤ min_ℤ p (pos cap)) users e'))

  pub first_loads_total :
      (total cap : ℕ) (sum : Float) (left : ℤ) (users : List (User Float))
      → is_zero sum ≡ false
      → (result : ℤ × List (User Float)) × (first_loads ops total cap sum left users ≡ ok result)
  unfolding first_loads truediv
  first_loads_total total cap sum left [] z = ((left, []), refl)
  first_loads_total total cap sum left (u ∷ users) z =
      let share = div u.share_load sum in
      let p = min_ℤ (round (mul (of_int (pos total)) share)) (pos cap) in
      let (rest, e) = first_loads_total total cap sum (left -ℤ p) users z in
      ((rest.0, record u { share_load = share; pages_number = p } ∷ rest.1), rw z (rw e))

  pub fill_loads-IsSame :
      (fuel cap : ℕ) (left : ℤ) (users : List (User Float)) {users' : List (User Float)}
      → fill_loads ops fuel cap left users ≡ ok users'
      → IsSame users users'
  unfolding fill_loads
  fill_loads-IsSame zero cap left users h = cc
  fill_loads-IsSame (suc fuel) cap left users {users'} h =
      let (left', next) = fill_round ops cap left users in
      let r = fill_round-IsRound ops cap left users in
      elim (Bool-cases (leb_ℤ left (pos 0))) [
        | inl done ↦ subst (IsSame users) (ok_inj (rw done at h)) (IsSame-refl users)
        | inr more ↦ IsSame-trans r.same (fill_loads-IsSame fuel cap left' next (rw more at h))
      ]

-- The correction at the end makes the loads add up to the pages that are to be given out.
pub add_to_first-sum :
    {F : Type 0} (pages : ℤ) (users : List (User F)) {users' : List (User F)}
    → add_to_first (pages -ℤ sum_loads users) users ≡ ok users'
    → (sum_loads users' ≡ pages) × IsSame users users'
unfolding add_to_first sum_loads
add_to_first-sum pages [] h = cc
add_to_first-sum pages (u ∷ users) h =
    subst (λ l. (sum_loads l ≡ pages) × IsSame (u ∷ users) l) (ok_inj h)
      (
        correct pages u.pages_number (sum_loads users),
        IsSame-cons u _ users users refl (IsSame-refl users),
      )
  where
    correct : (t a s : ℤ) → a +ℤ (t -ℤ (a +ℤ s)) +ℤ s ≡ t
    correct t a s = omega int_laws

pub add_to_first_total :
    {F : Type 0} (pages : ℤ) (users : List (User F))
    → 0 < length users
    → (users' : List (User F)) × (add_to_first pages users ≡ ok users')
unfolding add_to_first
add_to_first_total pages [] h = absurd (omega arith)
add_to_first_total pages (u ∷ users) h =
    (record u { pages_number = u.pages_number +ℤ pages } ∷ users, refl)
