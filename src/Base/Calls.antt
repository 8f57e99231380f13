-- ===== src/Base/Calls.antt =====
-- A Python call: its value, or the exception that it raises. `out_of_fuel` is the model's own: a
-- loop that has not ended within the fuel it was given. `service_error` is any exception of another
-- service, and `http_exception` is FastAPI's HTTPException.
use Prim.Native.Nat.{ℕ}
use mathlib.Core.Path.{◌≡◌, refl}

pub data Exception : Type 0 where
  index_error stop_iteration zero_division key_error attribute_error out_of_fuel : Exception
  value_error field_constraint_error service_error : Exception
  http_exception : (status_code : ℕ) → Exception

pub data Call {ℓ} (Value : Type ℓ) : Type ℓ where
  raises : Exception → Call Value
  ok : Value → Call Value

-- The call `next` is made with the value of the first one, unless that raises.
infixl 5 ◌>>=◌
abbrev pub ◌>>=◌ {ℓ κ} : {V : Type ℓ} {W : Type κ} (call : Call V) (next : V → Call W) → Call W
raises exception >>= next = raises exception
ok value >>= next = next value

-- If both calls together return, then each of them does.
pub >>=-eq-ok {ℓ κ} :
    {V : Type ℓ} {W : Type κ} (call : Call V) (next : V → Call W) {w : W}
    → (call >>= next) ≡ ok w
    → (v : V) × (call ≡ ok v) × (next v ≡ ok w)
>>=-eq-ok (ok value) next returned = (value, refl, returned)
>>=-eq-ok (raises exception) next returned = cc
