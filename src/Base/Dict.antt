-- ===== src/Base/Dict.antt =====
-- Python's dict as the list of its items in the order of insertion, for any type of keys with an
-- equality test.
use Prim.Native.Nat.{ℕ}
use mathlib.Core.Path.{◌≡◌, refl, sym, ◌∙◌}
use mathlib.Core.Logic.{◌↔◌, inl, inr}
use mathlib.Core.Bool.{Bool, true, false}
use mathlib.Core.Option.{Option, none, some}
use mathlib.Core.List.{List, [], ◌∷◌}
use native.Mathlib.Omega.{arith}
use badgerdoc.Base.Tests.{◌==◌, ==_iff, if◌then◌else◌, Bool-cases}

-- The equality test of keys.
pub record Key (K : Type 0) : Type 0 where
  pub same : K → K → Bool
  pub same_iff : (a b : K) → (same a b ≡ true) ↔ (a ≡ b)

instance abbrev pub number_key : Key ℕ
number_key = record { same = ◌==◌; same_iff = ==_iff }

-- An id or None, as a key.
abbrev pub same_option : Option ℕ → Option ℕ → Bool
same_option none none = true
same_option none (some b) = false
same_option (some a) none = false
same_option (some a) (some b) = a == b

pub same_option_iff : (a b : Option ℕ) → (same_option a b ≡ true) ↔ (a ≡ b)
same_option_iff none none = (λ h. refl, λ h. refl)
same_option_iff none (some b) = (λ h. ground arith, λ h. ground arith)
same_option_iff (some a) none = (λ h. ground arith, λ h. ground arith)
same_option_iff (some a) (some b) = ground arith

instance abbrev pub option_key : Key (Option ℕ)
option_key = record { same = same_option; same_iff = same_option_iff }

abbrev pub is_some {ℓ} : {V : Type ℓ} → Option V → Bool
is_some none = false
is_some (some v) = true

module _ {K : Type 0} ⦃key : Key K⦄ where
  open key use {same, same_iff}

  pub same_refl : (k : K) → same k k ≡ true
  same_refl k = (same_iff k k).1 refl

  same_join : (i j k : K) → same i j ≡ true → same k j ≡ true → same i k ≡ true
  same_join i j k h g = (same_iff i k).1 ((same_iff i j).0 h ∙ sym ((same_iff k j).0 g))

  same_flip : (i j : K) → same i j ≡ true → same j i ≡ true
  same_flip i j h = (same_iff j i).1 (sym ((same_iff i j).0 h))

module _ {K V : Type 0} ⦃key : Key K⦄ where
  open key use {same, same_iff}

  -- `d.get(k)`
  abbrev pub lookup : K → List (K × V) → Option V
  lookup k [] = none
  lookup k ((i, v) ∷ d) = if same i k then some v else lookup k d

  -- `d[k] = v`
  abbrev pub put : K → V → List (K × V) → List (K × V)
  put k v [] = (k, v) ∷ []
  put k v ((i, w) ∷ d) = let rest = put k v d in if same i k then (i, v) ∷ d else (i, w) ∷ rest

  -- `d.update(items)`
  abbrev pub update : List (K × V) → List (K × V) → List (K × V)
  update d [] = d
  update d ((k, v) ∷ items) = update (put k v d) items

  -- The value of the last item with this key.
  abbrev pub lookup_last : K → List (K × V) → Option V
  lookup_last k [] = none
  lookup_last k ((i, v) ∷ d) = elim (lookup_last k d) [
    | some w ↦ some w
    | none ↦ if same i k then some v else none
  ]

  pub lookup-put :
      (k j : K) (v : V) (d : List (K × V))
      → lookup j (put k v d) ≡ (if same k j then some v else lookup j d)
  lookup-put k j v [] = refl
  lookup-put k j v ((i, w) ∷ d) = elim (Bool-cases (same i k)) [
    | inl e ↦ rw e (rw ((same_iff i k).0 e) (ground arith))
    | inr e ↦ rw e (ground (arith, lookup-put k j v d, same_join i j k, e))
  ]

  pub lookup-update :
      (j : K) (d items : List (K × V))
      → lookup j (update d items)
        ≡ elim (lookup_last j items) [ some v ↦ some v | none ↦ lookup j d ]
  lookup-update j d [] = refl
  lookup-update j d ((k, v) ∷ items) =
      ground (arith, lookup-update j (put k v d) items, lookup-put k j v d)

  -- `k in d`
  abbrev pub has_key : K → List (K × V) → Bool
  has_key k [] = false
  has_key k ((i, _) ∷ d) = if same i k then true else has_key k d

  -- No key stands twice, as in every dict.
  abbrev pub IsDict : List (K × V) → Type 0
  IsDict [] = Unit
  IsDict ((k, _) ∷ d) = (has_key k d ≡ false) × IsDict d

  pub has_key-put :
      (k j : K) (v : V) (d : List (K × V))
      → has_key j (put k v d) ≡ (if same k j then true else has_key j d)
  has_key-put k j v [] = refl
  has_key-put k j v ((i, w) ∷ d) = elim (Bool-cases (same i k)) [
    | inl e ↦ rw e (rw ((same_iff i k).0 e) (ground arith))
    | inr e ↦ rw e (ground (arith, has_key-put k j v d, same_join i j k, e))
  ]

  pub put-IsDict : (k : K) (v : V) (d : List (K × V)) → IsDict d → IsDict (put k v d)
  put-IsDict k v [] h = (refl, tt)
  put-IsDict k v ((i, w) ∷ d) h = elim (Bool-cases (same i k)) [
    | inl e ↦ rw e h
    | inr e ↦
        rw e (ground (arith, has_key-put k i v d, same_flip k i, h.0, e), put-IsDict k v d h.1)
  ]

  pub update-IsDict : (d items : List (K × V)) → IsDict d → IsDict (update d items)
  update-IsDict d [] h = h
  update-IsDict d ((k, v) ∷ items) h = update-IsDict (put k v d) items (put-IsDict k v d h)

  pub lookup-absent : (k : K) (d : List (K × V)) → has_key k d ≡ false → lookup k d ≡ none
  lookup-absent k [] h = refl
  lookup-absent k ((i, v) ∷ d) h = ground (arith, lookup-absent k d)

  pub has_key-lookup : (k : K) (d : List (K × V)) → has_key k d ≡ is_some (lookup k d)
  has_key-lookup k [] = refl
  has_key-lookup k ((i, v) ∷ d) = ground (arith, has_key-lookup k d)
