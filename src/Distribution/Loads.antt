-- ===== src/Distribution/Loads.antt =====
-- The loads of the users as numbers: what the distribution has left to hand out to each.
use badgerdoc.Base.{ℕ, ◌+◌, pos, pos_part, ◌≤ℤ◌, List, [], ◌∷◌, if◌then◌else◌, ◌==◌, All}
use badgerdoc.Distribution.Types.{User}

module _ {F : Type 0} where
  -- No load is negative.
  abbrev pub IsNonneg : List (User F) → Type 0
  IsNonneg = All (λ u. pos 0 ≤ℤ u.pages_number)

  -- Every load is at least one page.
  abbrev pub IsPositive : List (User F) → Type 0
  IsPositive = All (λ u. pos 1 ≤ℤ u.pages_number)

  -- The loads of all users, and of the users with one id.
  abbrev pub loads : List (User F) → ℕ
  loads [] = 0
  loads (u ∷ us) = pos_part u.pages_number + loads us

  abbrev pub load_of : ℕ → List (User F) → ℕ
  load_of id [] = 0
  load_of id (u ∷ us) = (if u.user_id == id then pos_part u.pages_number else 0) + load_of id us

  abbrev pub user_ids : List (User F) → List ℕ
  user_ids [] = []
  user_ids (u ∷ us) = u.user_id ∷ user_ids us
