-- ===== src/Base/Results.antt =====
-- What a fallible function returns: `std::expected`, or a value beside the exceptions it may throw.
use mathlib.Core.Path.{◌≡◌, refl, ap}
use mathlib.Core.Logic.{◌≢◌, ◌⊎◌, inl, inr}
use mathlib.Core.Bool.{Bool, true, false}

pub data Result {ℓ} (E : Type 0) (A : Type ℓ) : Type ℓ where
  ok : A → Result E A
  err : E → Result E A

-- The standard exception classes that the source throws.
pub data Exception : Type 0 where
  invalid_argument overflow_error logic_error out_of_range length_error : Exception

infixl 5 ◌>>=◌ ◌>>◌
abbrev pub ◌>>=◌ {ℓ κ} :
    {E : Type 0} {A : Type ℓ} {B : Type κ} → Result E A → (A → Result E B) → Result E B
ok a >>= f = f a
err e >>= f = err e

abbrev pub ◌>>◌ {ℓ} : {E : Type 0} {B : Type ℓ} → Result E (Unit {0}) → Result E B → Result E B
m >> k = m >>= λ _. k

-- `if (bad) { throw e; }`
abbrev pub throw_if : {E : Type 0} → Bool → E → Result E (Unit {0})
throw_if true e = err e
throw_if false e = ok tt

pub Result-cases {ℓ} :
    {E : Type 0} {A : Type ℓ} (r : Result E A) → ((a : A) × (r ≡ ok a)) ⊎ ((e : E) × (r ≡ err e))
Result-cases (ok a) = inl (a, refl)
Result-cases (err e) = inr (e, refl)

-- A chain that returned `result` had a first step that returned something.
pub first_step {ℓ κ} :
    {E : Type 0} {A : Type ℓ} {B : Type κ} (first : Result E A) (next : A → Result E B) {result : B}
    → (first >>= next) ≡ ok result
    → (between : A) × (first ≡ ok between) × (next between ≡ ok result)
first_step (ok between) next returned = (between, refl, returned)
first_step (err thrown) next returned = cc

abbrev value_or {ℓ} : {E : Type 0} {A : Type ℓ} → A → Result E A → A
value_or d (ok a) = a
value_or d (err e) = d

pub ok-injective {ℓ} :
    {E : Type 0} {A : Type ℓ} {a b : A} → ◌≡◌ {A = Result E A} (ok a) (ok b) → a ≡ b
ok-injective {a = a} p = ap (value_or a) p

abbrev error_or {ℓ} : {E : Type 0} {A : Type ℓ} → E → Result E A → E
error_or d (ok a) = d
error_or d (err e) = e

pub err-injective {ℓ} :
    {E : Type 0} {A : Type ℓ} {a b : E} → ◌≡◌ {A = Result E A} (err a) (err b) → a ≡ b
err-injective {a = a} p = ap (error_or a) p

-- What follows a test runs only if the test fails.
pub throw_if-eq-ok {ℓ} :
    {E : Type 0} {B : Type ℓ} (b : Bool) (e : E) (m : Result E B) {r : B}
    → (throw_if b e >> m) ≡ ok r
    → (b ≡ false) × (m ≡ ok r)
throw_if-eq-ok true e m h = cc
throw_if-eq-ok false e m h = (refl, h)

-- A chain whose steps never fail with `bad` never does.
module _ {ℓ} {E : Type 0} {B : Type ℓ} (bad : E) where
  pub >>=-never {κ} :
      {A : Type κ} (m : Result E A) (f : A → Result E B)
      → m ≢ err bad
      → ((a : A) → f a ≢ err bad)
      → (m >>= f) ≢ err bad
  >>=-never (ok a) f n h = h a
  >>=-never (err e) f n h = λ p. n (ap err (err-injective p))

-- A chain whose first step returned, and whose second step then returns.
pub bind_ok {ℓ κ} :
    {E : Type 0} {A : Type ℓ} {B : Type κ} (m : Result E A) (f : A → Result E B) (a : A) {b : B}
    → m ≡ ok a
    → f a ≡ ok b
    → (m >>= f) ≡ ok b
bind_ok m f a e g = rw e g
