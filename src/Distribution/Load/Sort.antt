-- ===== src/Distribution/Load/Sort.antt =====
-- Sorting the users by their loads changes neither who they are nor what they get together.
use badgerdoc.Base.{
  ℕ, ◌+◌, ◌≡◌, refl, ℤ, ◌+ℤ◌, ◌≤ℤ◌, leb_ℤ, int_laws, List, [], ◌∷◌, if◌then◌else◌, ◌==◌, length,
  All, arith, Bool-cases, inl, inr,
}
use badgerdoc.Distribution.Types.{User}
use badgerdoc.Distribution.Load.{insert_user, sort_users, sum_loads}

module _ {F : Type 0} where
  -- How many users have this id.
  abbrev pub owners : ℕ → List (User F) → ℕ
  owners id [] = 0
  owners id (u ∷ us) = (if u.user_id == id then 1 else 0) + owners id us

  -- The same users, with new loads, perhaps in another order.
  pub record IsSame (users users' : List (User F)) : Type 0 where
    pub same_users : (id : ℕ) → owners id users' ≡ owners id users
    pub same_number : length users' ≡ length users

  pub IsSame-trans : {a b c : List (User F)} → IsSame a b → IsSame b c → IsSame a c
  IsSame-trans p q = record {
    same_users = λ id. omega (arith, p.same_users id, q.same_users id);
    same_number = omega (arith, p.same_number, q.same_number);
  }

  insert-IsSame : (u : User F) (users : List (User F)) → IsSame (u ∷ users) (insert_user u users)
  unfolding insert_user
  insert-IsSame u [] = record { same_users = λ id. refl; same_number = refl }
  insert-IsSame u (v ∷ users) =
      let ih = insert-IsSame u users in
      record {
        same_users = λ id. ground (arith, ih.same_users id);
        same_number = ground (arith, ih.same_number);
      }

  pub sort-IsSame : (users : List (User F)) → IsSame users (sort_users users)
  unfolding sort_users
  sort-IsSame [] = record { same_users = λ id. refl; same_number = refl }
  sort-IsSame (u ∷ users) =
      let ih = sort-IsSame users in
      let step = insert-IsSame u (sort_users users) in
      record {
        same_users = λ id. omega (arith, ih.same_users id, step.same_users id);
        same_number = omega (arith, ih.same_number, step.same_number);
      }

  sum-insert :
      (u : User F) (users : List (User F))
      → sum_loads (insert_user u users) ≡ u.pages_number +ℤ sum_loads users
  unfolding insert_user sum_loads
  sum-insert u [] = refl
  sum-insert u (v ∷ users) = elim (Bool-cases (leb_ℤ v.pages_number u.pages_number)) [
    | inl before ↦ rw before refl
    | inr after ↦ rw (after, sum-insert u users) (omega int_laws)
  ]

  pub sum-sort : (users : List (User F)) → sum_loads (sort_users users) ≡ sum_loads users
  unfolding sort_users sum_loads
  sum-sort [] = refl
  sum-sort (u ∷ users) = rw (sum-insert u (sort_users users), sum-sort users) refl

  insert-All :
      (P : User F → Type 0) (u : User F) (users : List (User F))
      → P u
      → All P users
      → All P (insert_user u users)
  unfolding insert_user
  insert-All P u [] p h = (p, tt)
  insert-All P u (v ∷ users) p h = elim (Bool-cases (leb_ℤ v.pages_number u.pages_number)) [
    | inl before ↦ rw before (p, h)
    | inr after ↦ rw after (h.0, insert-All P u users p h.1)
  ]

  pub sort-All :
      (P : User F → Type 0) (users : List (User F)) → All P users → All P (sort_users users)
  unfolding sort_users
  sort-All P [] h = tt
  sort-All P (u ∷ users) h = insert-All P u (sort_users users) h.0 (sort-All P users h.1)

  -- The most loaded user comes first.
  abbrev pub IsDescending : List (User F) → Type 0
  IsDescending [] = Unit
  IsDescending (u ∷ users) = All (λ v. v.pages_number ≤ℤ u.pages_number) users × IsDescending users

  All-le_trans :
      (a b : ℤ) (users : List (User F))
      → b ≤ℤ a
      → All (λ v. v.pages_number ≤ℤ b) users
      → All (λ v. v.pages_number ≤ℤ a) users
  All-le_trans a b [] h k = tt
  All-le_trans a b (u ∷ users) h k = (omega (arith, k.0), All-le_trans a b users h k.1)

  insert-IsDescending :
      (u : User F) (users : List (User F)) → IsDescending users → IsDescending (insert_user u users)
  unfolding insert_user
  insert-IsDescending u [] h = (tt, tt)
  insert-IsDescending u (v ∷ users) h = elim (Bool-cases (leb_ℤ v.pages_number u.pages_number)) [
    | inl before ↦
        let le : v.pages_number ≤ℤ u.pages_number = ground (arith, before) in
        rw before ((le, All-le_trans u.pages_number v.pages_number users le h.0), h)
    | inr after ↦
        let le : u.pages_number ≤ℤ v.pages_number = ground (arith, after) in
        rw after (
          insert-All (λ w. w.pages_number ≤ℤ v.pages_number) u users le h.0,
          insert-IsDescending u users h.1,
        )
  ]

  pub sort-IsDescending : (users : List (User F)) → IsDescending (sort_users users)
  unfolding sort_users
  sort-IsDescending [] = tt
  sort-IsDescending (u ∷ users) = insert-IsDescending u (sort_users users) (sort-IsDescending users)
