-- ===== src/Pipelines/Execution/Tokens.antt =====
-- What is in the event loop, when a coroutine is taken out of it.
use badgerdoc.Base.{
  ℕ, zero, suc, ◌≡◌, subst, some, List, [], ◌∷◌, All, Option-cases, inl, inr, arith,
}
use badgerdoc.Pipelines.Tables.{pop_at}

module _ {X : Type 0} (P : X → Type 0) where
  pub All-pop_at :
      (n : ℕ) (xs : List X) (x : X) (rest : List X)
      → pop_at n xs ≡ some (x, rest)
      → All P xs
      → P x × All P rest
  All-pop_at n [] x rest e h = absurd (cc)
  All-pop_at zero (y ∷ ys) x rest e h =
      let head : y ≡ x = cc in
      let tail : ys ≡ rest = cc in (subst P head h.0, subst (All P) tail h.1)
  All-pop_at (suc n) (y ∷ ys) x rest e h = elim (Option-cases (pop_at n ys)) [
    | inl g ↦ absurd (ground (arith, e, g))
    | inr ((z, zs), g) ↦
        let ih = All-pop_at n ys z zs g h.1 in
        let head : z ≡ x = ground (arith, e, g) in
        let tail : ◌≡◌ {A = List X} (y ∷ zs) rest = ground (arith, e, g) in
        (subst P head ih.0, subst (All P) tail (h.0, ih.1))
  ]
