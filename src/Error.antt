-- ===== src/Error.antt =====
-- crates/watchdog/src/error.rs: the classes of error, and `Result` with its `?`.
-- A variant's message or inner error is left out: no caller that is modelled reads it.
use mathlib.Core.Path.{◌≡◌, refl, ap}
use mathlib.Core.Option.{Option, none, some}
use mathlib.Core.Bool.{Bool, true, false}
use mathlib.Core.Logic.{◌⊎◌, inl, inr}
use ascension_watchdog.Prelude.Tests.{if◌then◌else◌}

pub data WatchdogError : Type 0 where
  missing_state busy invalid_input not_found conflict unauthorized : WatchdogError
  identity_mismatch timeout unsupported sqlite io json verification_failed : WatchdogError

module _ {ℓ} (Value : Type ℓ) where
  -- `std::result::Result<Value, WatchdogError>`
  pub data Result : Type ℓ where
    ok : (value : Value) → Result
    err : (error : WatchdogError) → Result

-- `?`: an error returns at once, a value goes on.
module _ {ℓ κ} {A : Type ℓ} {B : Type κ} where
  infixl 5 ◌>>=◌
  abbrev pub ◌>>=◌ : Result A → (A → Result B) → Result B
  err error >>= next = err error
  ok value >>= next = next value

  -- Inversion of a chain that succeeds.
  pub >>=-eq-ok :
      (first : Result A) (next : A → Result B) {last : B}
      → (first >>= next) ≡ ok last
      → (value : A) × (first ≡ ok value) × (next value ≡ ok last)
  >>=-eq-ok (err error) next succeeds = cc
  >>=-eq-ok (ok value) next succeeds = (value, refl, succeeds)

module _ {κ} {B : Type κ} where
  infixl 5 ◌>>◌
  abbrev pub ◌>>◌ : Result (Unit {0}) → Result B → Result B
  check >> rest = check >>= λ _. rest

-- `if !test { return Err(..) }`
abbrev pub ensure : Bool → WatchdogError → Result (Unit {0})
ensure true e = ok tt
ensure false e = err e

pub >>-ensure {ℓ} :
    {A : Type ℓ} (test : Bool) (e : WatchdogError) (m : Result A) {a : A}
    → (ensure test e >> m) ≡ ok a
    → (test ≡ true) × (m ≡ ok a)
>>-ensure true e m h = (refl, h)
>>-ensure false e m h = cc

-- Inversion of a guard that returns an error.
pub if-err {ℓ} :
    {A : Type ℓ} (test : Bool) (e : WatchdogError) (m : Result A) {a : A}
    → (if test then err e else m) ≡ ok a
    → (test ≡ false) × (m ≡ ok a)
if-err true e m h = cc
if-err false e m h = (refl, h)

pub if-cases {ℓ} :
    {A : Type ℓ} (test : Bool) (m n : Result A) {a : A}
    → (if test then m else n) ≡ ok a
    → ((test ≡ true) × (m ≡ ok a)) ⊎ ((test ≡ false) × (n ≡ ok a))
if-cases true m n h = inl (refl, h)
if-cases false m n h = inr (refl, h)

-- `map_err(to_sqlite_error)?` in the decoder of a row.
abbrev pub as_sqlite {ℓ} : {A : Type ℓ} → Result A → Result A
as_sqlite (ok value) = ok value
as_sqlite (err error) = err sqlite

pub as_sqlite-ok {ℓ} : {A : Type ℓ} (m : Result A) {a : A} → as_sqlite m ≡ ok a → m ≡ ok a
as_sqlite-ok (ok value) h = h
as_sqlite-ok (err error) h = cc h

pub ok-eq {ℓ} : {A : Type ℓ} {a b : A} → ◌≡◌ {A = Result A} (ok a) (ok b) → b ≡ a
ok-eq e = cc e

abbrev or_default {ℓ} : {A : Type ℓ} → A → Option A → A
or_default a none = a
or_default a (some b) = b

pub some-eq {ℓ} : {A : Type ℓ} {a b : A} → ◌≡◌ {A = Option A} (some a) (some b) → a ≡ b
some-eq {a = a} e = ap (or_default a) e
