-- ===== src/Common/Results.antt =====
-- Results with an error type, and `do` over them: Rust's `Result<A, E>` and `?`.
use mathlib.Core.Path.{◌≡◌, refl}
use mathlib.Core.Logic.{◌⊎◌, inl, inr}
use mathlib.Core.Bool.{Bool, true, false}
use mathlib.Core.Option.{Option, none, some}

pub data Result {ℓ κ} (E : Type κ) (A : Type ℓ) : Type (ℓ ⊔ κ) where
  err : E → Result E A
  ok : A → Result E A

-- `ensure!(test, error)`
abbrev pub ensure {κ} : {E : Type κ} → Bool → E → Result E (Unit {0})
ensure false failure = err failure
ensure true failure = ok tt

-- `option.ok_or(error)?` and `option.context(error)?`
abbrev pub or_fail {ℓ κ} : {E : Type κ} {A : Type ℓ} → Option A → E → Result E A
or_fail (some found) failure = ok found
or_fail none failure = err failure

-- `result.is_ok()` and `result.ok()`
abbrev pub is_ok {ℓ κ} : {E : Type κ} {A : Type ℓ} → Result E A → Bool
is_ok (err failure) = false
is_ok (ok value) = true

abbrev pub ok_value {ℓ κ} : {E : Type κ} {A : Type ℓ} → Result E A → Option A
ok_value (err failure) = none
ok_value (ok value) = some value

infixl 5 ◌>>=◌ ◌>>◌
abbrev pub ◌>>=◌ {ℓ ℓ' κ} :
    {E : Type κ} {A : Type ℓ} {B : Type ℓ'} → Result E A → (A → Result E B) → Result E B
err failure >>= next = err failure
ok value >>= next = next value

abbrev pub ◌>>◌ {ℓ κ} : {E : Type κ} {B : Type ℓ} → Result E (Unit {0}) → Result E B → Result E B
first >> second = first >>= λ done. second

pub ensure-ok {κ} :
    {E : Type κ} (b : Bool) (failure : E) (u : Unit {0}) → ensure b failure ≡ ok u → b ≡ true
ensure-ok false failure u h = cc h
ensure-ok true failure u h = refl

module _ {ℓ κ} {E : Type κ} {A : Type ℓ} where
  pub ok_injective : {a b : A} → ◌≡◌ {A = Result E A} (ok a) (ok b) → a ≡ b
  ok_injective h = cc h

  pub Result-cases : (r : Result E A) → ((a : A) × (r ≡ ok a)) ⊎ ((e : E) × (r ≡ err e))
  Result-cases (err failure) = inr (failure, refl)
  Result-cases (ok value) = inl (value, refl)

  pub or_fail-ok : (o : Option A) (failure : E) (a : A) → or_fail o failure ≡ ok a → o ≡ some a
  or_fail-ok none failure a h = cc h
  or_fail-ok (some found) failure a h = cc h

  -- What a chain that succeeds has done first.
  pub >>=-ok_inversion {ℓ'} :
      {B : Type ℓ'} {b : B} (r : Result E A) (next : A → Result E B)
      → (r >>= next) ≡ ok b
      → (value : A) × (r ≡ ok value) × (next value ≡ ok b)
  >>=-ok_inversion (err failure) next h = cc h
  >>=-ok_inversion (ok value) next h = (value, refl, h)
