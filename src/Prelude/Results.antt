-- ===== src/Prelude/Results.antt =====
-- What a call raises. The classes are those of app/exceptions/base.py and Python's own, and the
-- routes' HTTPException; of a message only what the caller can act on is kept: the `retry_after` of a
-- refused quota, and the status code.
use Prim.Native.Nat.{ℕ}
use mathlib.Core.Bool.{Bool, true, false}
use mathlib.Core.Path.{◌≡◌, refl}
use mathlib.Core.Logic.{◌⊎◌, inl, inr}
use mathlib.Core.List.{List, [], ◌∷◌}
use ai_platform_mini.Prelude.Lists.{All}

pub data Exception : Type 0 where
  authentication_error authorization_error validation_error conflict_error : Exception
  quota_exceeded : ℕ → Exception
  quota_reservation_error : Exception
  value_error runtime_error assertion_error key_error : Exception
  api_key_not_found_error memory_not_found_error : Exception
  http_error : ℕ → Exception

pub data Result {ℓ} (A : Type ℓ) : Type ℓ where
  ok : A → Result A
  raised : Exception → Result A

infixl 5 ◌>>=◌ ◌>>◌
abbrev pub ◌>>=◌ {ℓ κ} : {A : Type ℓ} {B : Type κ} → Result A → (A → Result B) → Result B
ok a >>= f = f a
raised e >>= f = raised e

abbrev pub ◌>>◌ {ℓ} : {B : Type ℓ} → Result (Unit {0}) → Result B → Result B
m >> k = m >>= λ _. k

-- `if not condition: raise e`
abbrev pub require : Bool → Exception → Result (Unit {0})
require true e = ok tt
require false e = raised e

-- `for x in xs: f(x)`, for a call that only raises.
abbrev pub for_each {ℓ} : {A : Type ℓ} → (A → Result (Unit {0})) → List A → Result (Unit {0})
for_each f [] = ok tt
for_each f (x ∷ xs) = f x >> for_each f xs

-- Inversion of calls that have not raised.
pub >>-eq-ok {ℓ} :
    {B : Type ℓ} (m : Result (Unit {0})) (k : Result B) {b : B}
    → (m >> k) ≡ ok b
    → (m ≡ ok tt) × (k ≡ ok b)
>>-eq-ok (ok tt) k h = (refl, h)
>>-eq-ok (raised e) k h = cc

pub value_of_call {ℓ κ} :
    {B : Type κ} {A : Type ℓ} {b : B} (call : Result A) (rest : A → Result B)
    → (call >>= rest) ≡ ok b
    → (x : A) × (call ≡ ok x) × (rest x ≡ ok b)
value_of_call (raised x) rest e = cc
value_of_call (ok x) rest e = (x, refl, e)

pub require-eq-ok : (b : Bool) (e : Exception) → require b e ≡ ok tt → b ≡ true
require-eq-ok true e h = refl
require-eq-ok false e h = cc

pub for_each-eq-ok {ℓ} :
    {A : Type ℓ} (f : A → Result (Unit {0})) (xs : List A)
    → for_each f xs ≡ ok tt
    → All (λ x. f x ≡ ok tt) xs
for_each-eq-ok f [] h = tt
for_each-eq-ok f (x ∷ xs) h =
    let (here, rest) = >>-eq-ok (f x) (for_each f xs) h in (here, for_each-eq-ok f xs rest)

pub Result-cases {ℓ} :
    {A : Type ℓ} (m : Result A) → ((a : A) × (m ≡ ok a)) ⊎ ((e : Exception) × (m ≡ raised e))
Result-cases (ok a) = inl (a, refl)
Result-cases (raised e) = inr (e, refl)
