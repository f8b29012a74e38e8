-- ===== src/Common/Errors.antt =====
-- The exceptions of the services (the classes of NestJS, and the plain `Error`), as values.
use Prim.Native.String.{String}
use mathlib.Core.Path.{◌≡◌, refl}
use mathlib.Core.Logic.{◌⊎◌, inl, inr}
use playhub_playbooking.Common.Tests.{if◌then◌else◌}
use mathlib.Core.Bool.{Bool, true, false}
use mathlib.Core.List.{List, [], ◌∷◌}
use mathlib.Core.Option.{Option, none, some}

-- The text is the message, without the values that the source interpolates.
pub data Exception : Type 0 where
  error bad_request not_found forbidden conflict unauthorized : String → Exception

pub data Result {ℓ} (A : Type ℓ) : Type ℓ where
  ok : A → Result A
  err : Exception → Result A

-- `await`: what follows a call that may throw.
infixl 5 ◌>>=◌ ◌>>◌
abbrev pub ◌>>=◌ {ℓ κ} :
    {S : Type ℓ} {T : Type κ} (call : Result S) (next : S → Result T) → Result T
err e >>= next = err e
ok s >>= next = next s

-- `if (test) throw e`
abbrev pub throw_if : Bool → Exception → Result (Unit {0})
throw_if true e = err e
throw_if false e = ok tt

abbrev pub ◌>>◌ {κ} : {T : Type κ} (call : Result (Unit {0})) (next : Result T) → Result T
call >> next = call >>= λ done. next

-- A value that must be there.
abbrev pub or_throw {ℓ} : {A : Type ℓ} → Option A → Exception → Result A
or_throw none e = err e
or_throw (some a) e = ok a

abbrev pub is_ok {ℓ} : {A : Type ℓ} → Result A → Bool
is_ok (ok a) = true
is_ok (err e) = false

-- If two calls in a row do not throw, the first did not, and the second did not on its result.
pub >>=-eq-ok {ℓ κ} :
    {S : Type ℓ} {T : Type κ} (call : Result S) (next : S → Result T) {t : T}
    → (call >>= next) ≡ ok t
    → (s : S) × (call ≡ ok s) × (next s ≡ ok t)
>>=-eq-ok (err e) next returned = cc
>>=-eq-ok (ok s) next returned = (s, refl, returned)

-- `map` with a function that may throw.
abbrev pub collect {ℓ κ} : {A : Type ℓ} {B : Type κ} → (A → Result B) → List A → Result (List B)
collect f [] = ok []
collect f (a ∷ rest) = f a >>= λ b. collect f rest >>= λ bs. ok (b ∷ bs)

-- Inversions of the commonest first steps.
pub throw_if-eq-ok {ℓ} :
    {A : Type ℓ} (test : Bool) (e : Exception) (k : Result A) {a : A}
    → (throw_if test e >> k) ≡ ok a
    → (test ≡ false) × (k ≡ ok a)
throw_if-eq-ok true e k h = cc
throw_if-eq-ok false e k h = (refl, h)

pub or_throw-eq-ok {ℓ κ} :
    {A : Type ℓ} {B : Type κ} (o : Option A) (e : Exception) (f : A → Result B) {b : B}
    → (or_throw o e >>= f) ≡ ok b
    → (a : A) × (o ≡ some a) × (f a ≡ ok b)
or_throw-eq-ok none e f h = cc
or_throw-eq-ok (some a) e f h = (a, refl, h)

pub if-eq {ℓ} :
    {A : Type ℓ} (test : Bool) (x y : A) {a : A}
    → (if test then x else y) ≡ a
    → ((test ≡ true) × (x ≡ a)) ⊎ ((test ≡ false) × (y ≡ a))
if-eq true x y h = inl (refl, h)
if-eq false x y h = inr (refl, h)

pub Result-cases {ℓ} :
    {A : Type ℓ} (r : Result A) → ((a : A) × (r ≡ ok a)) ⊎ ((e : Exception) × (r ≡ err e))
Result-cases (ok a) = inl (a, refl)
Result-cases (err e) = inr (e, refl)

-- The state in a result.
pub state_of_ok {ℓ κ} :
    {A : Type ℓ} {S : Type κ} (x y : A) (s t : S)
    → ◌≡◌ {A = Result (A × S)} (ok (x, s)) (ok (y, t))
    → s ≡ t
state_of_ok x y s t e = cc
