-- ===== src/Prelude/Results.antt =====
-- Fallible code: a value, or the exception that was raised.
use mathlib.Core.Option.{Option, none, some}
use mathlib.Core.Bool.{Bool, true, false}
use mathlib.Core.Path.{◌≡◌, refl}

pub data Result {ℓ} (Exception : Type 0) (Value : Type ℓ) : Type ℓ where
  err : Exception → Result Exception Value
  ok : Value → Result Exception Value

-- `if b: raise e`
abbrev pub raise_if : {Exception : Type 0} → Bool → Exception → Result Exception (Unit {0})
raise_if false e = ok tt
raise_if true e = err e

-- A subscript or a lookup that raises `e` where nothing is found.
abbrev pub or_raise {ℓ} :
    {Exception : Type 0} {Value : Type ℓ} → Exception → Option Value → Result Exception Value
or_raise e (some found) = ok found
or_raise e none = err e

infixl 5 ◌>>=◌ ◌>>◌
abbrev pub ◌>>=◌ {ℓ κ} :
    {Exception : Type 0} {Value : Type ℓ} {Next : Type κ}
    → Result Exception Value
    → (Value → Result Exception Next)
    → Result Exception Next
err e >>= k = err e
ok value >>= k = k value

abbrev pub ◌>>◌ {κ} :
    {Exception : Type 0} {Next : Type κ}
    → Result Exception (Unit {0})
    → Result Exception Next
    → Result Exception Next
check >> next = check >>= λ _. next

-- A chain that succeeds has a first step that succeeds.
pub >>=-eq-ok {ℓ κ} :
    {Exception : Type 0} {Value : Type ℓ} {Next : Type κ} (first : Result Exception Value)
    (k : Value → Result Exception Next) {last : Next}
    → (first >>= k) ≡ ok last
    → (value : Value) × (first ≡ ok value) × (k value ≡ ok last)
>>=-eq-ok (err e) k h = cc
>>=-eq-ok (ok value) k h = (value, refl, h)

pub or_raise-ok {ℓ} :
    {Exception : Type 0} {Value : Type ℓ} (e : Exception) (o : Option Value) {value : Value}
    → or_raise e o ≡ ok value
    → o ≡ some value
or_raise-ok e none h = cc
or_raise-ok e (some value) h = cc
