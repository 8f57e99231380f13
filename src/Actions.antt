-- ===== src/Actions.antt =====
-- Code that changes the database or the object storage and may raise: from a state to the value or the
-- exception, and the state it leaves. What is changed before an exception stays changed.
use badgerdoc.Base.{◌≡◌, refl, Bool, true, false, Call, ok, raises, Exception}

abbrev pub Action : Type 0 → Type 0 → Type 0
Action S A = S → Call A × S

abbrev pub return : {S A : Type 0} → A → Action S A
return a s = (ok a, s)

abbrev pub raise : {S A : Type 0} → Exception → Action S A
raise e s = (raises e, s)

-- A call that does not change the state.
abbrev pub lift : {S A : Type 0} → Call A → Action S A
lift call s = (call, s)

abbrev pub get : {S : Type 0} → Action S S
get s = (ok s, s)

abbrev pub modify : {S : Type 0} → (S → S) → Action S (Unit {0})
modify f s = (ok tt, f s)

-- `if test: raise e`
abbrev pub raise_if : {S : Type 0} → Bool → Exception → Action S (Unit {0})
raise_if true e s = (raises e, s)
raise_if false e s = (ok tt, s)

abbrev pub continue : {S A B : Type 0} → Call A × S → (A → Action S B) → Call B × S
continue (ok a, s) next = next a s
continue (raises e, s) next = (raises e, s)

infixl 5 ◌>>=◌ ◌>>◌
unfoldable pub ◌>>=◌ : {S A B : Type 0} → Action S A → (A → Action S B) → Action S B
◌>>=◌ action next s = continue (action s) next

abbrev pub ◌>>◌ : {S B : Type 0} → Action S (Unit {0}) → Action S B → Action S B
action >> next = action >>= λ _. next

-- The value and the state after it have the first property, or the state after an exception the second.
pub data Holds {S A : Type 0} (Q : A → S → Type 0) (E : S → Type 0) : Call A × S → Type 0 where
  returned : {a : A} {s : S} → Q a s → Holds Q E (ok a, s)
  raised : {e : Exception} {s : S} → E s → Holds Q E (raises e, s)

module _ {S A B : Type 0} {Q : B → S → Type 0} {E : S → Type 0} where
  pub >>=-Holds :
      (action : Action S A) (next : A → Action S B) (s : S)
      → Holds (λ a s. Holds Q E (next a s)) E (action s)
      → Holds Q E ((action >>= next) s)
  unfolding ◌>>=◌
  >>=-Holds action next s h = go (action s) h
    where
      go :
          (out : Call A × S)
          → Holds (λ a s. Holds Q E (next a s)) E out
          → Holds Q E (continue out next)
      go _ (returned h) = h
      go _ (raised h) = raised h

pub lift-Holds :
    {S A : Type 0} {Q : A → S → Type 0} {E : S → Type 0} (call : Call A) (s : S)
    → ((a : A) → call ≡ ok a → Q a s)
    → E s
    → Holds Q E (call, s)
lift-Holds (ok a) s h k = returned (h a refl)
lift-Holds (raises e) s h k = raised k

pub raise_if-Holds :
    {S : Type 0} {Q : Unit {0} → S → Type 0} {E : S → Type 0} (test : Bool) (e : Exception) (s : S)
    → (test ≡ false → Q tt s)
    → E s
    → Holds Q E (raise_if test e s)
raise_if-Holds true e s h k = raised k
raise_if-Holds false e s h k = returned (h refl)

pub weaken-Holds :
    {S A : Type 0} {Q R : A → S → Type 0} {E F : S → Type 0} {out : Call A × S}
    → ((a : A) (s : S) → Q a s → R a s)
    → ((s : S) → E s → F s)
    → Holds Q E out
    → Holds R F out
weaken-Holds f g (returned h) = returned (f _ _ h)
weaken-Holds f g (raised h) = raised (g _ h)

pub both-Holds :
    {S A : Type 0} {Q R : A → S → Type 0} {E : S → Type 0} (out : Call A × S)
    → Holds Q E out
    → Holds R E out
    → Holds (λ a s. Q a s × R a s) E out
both-Holds (ok a, s) (returned h) (returned g) = returned (h, g)
both-Holds (raises e, s) (raised h) (raised g) = raised h
