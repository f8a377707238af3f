-- ===== src/Errors.antt =====
-- The errors that the runner tells apart, and `errors.As` / `errors.Is` over them
-- (internal/runner/report/report.go, internal/runner/sqlstep/sqlstep.go).
use pxc_anonymizer.Prelude.{
  ℕ, String, Bool, true, false, ◌||◌, Option, none, some, ◌≡◌, refl, ◌⊎◌, inl, inr,
}

-- `report.Class`.
pub data Class : Type 0 where
  transient policy schema permission unique : Class

-- An error value. `failure` is a `*report.Failure`, `mysql` a `*mysql.MySQLError` with its number
-- and message, `uncertain` the sentinel `sqlstep.ErrUncertainOutcome`, `joined` an `errors.Join`
-- of two errors, `wrapped` a `fmt.Errorf` with `%w`, and `plain` any other error.
pub data Err : Type 0 where
  failure : Class → String → Err
  mysql : ℕ → String → Err
  uncertain : Err
  joined : Err → Err → Err
  wrapped : String → Err → Err
  plain : String → Err

-- The first of two optional values that is there.
abbrev pub first {ℓ} : {A : Type ℓ} → Option A → Option A → Option A
first (some a) other = some a
first none other = other

-- `errors.AsType[*Failure]`: the first in a depth-first walk.
unfoldable pub as_failure : Err → Option (Class × String)
as_failure (failure c m) = some (c, m)
as_failure (mysql n m) = none
as_failure uncertain = none
as_failure (joined a b) = first (as_failure a) (as_failure b)
as_failure (wrapped m e) = as_failure e
as_failure (plain m) = none

-- `errors.AsType[*mysql.MySQLError]`: its number.
unfoldable pub as_mysql : Err → Option ℕ
as_mysql (failure c m) = none
as_mysql (mysql n m) = some n
as_mysql uncertain = none
as_mysql (joined a b) = first (as_mysql a) (as_mysql b)
as_mysql (wrapped m e) = as_mysql e
as_mysql (plain m) = none

-- `errors.Is(err, ErrUncertainOutcome)`.
unfoldable pub is_uncertain : Err → Bool
is_uncertain (failure c m) = false
is_uncertain (mysql n m) = false
is_uncertain uncertain = true
is_uncertain (joined a b) = is_uncertain a || is_uncertain b
is_uncertain (wrapped m e) = is_uncertain e
is_uncertain (plain m) = false

-- A call that may fail.
pub data Result {ℓ} (A : Type ℓ) : Type ℓ where
  ok : A → Result A
  err : Err → Result A

-- To split on a computed result and keep the equation.
pub Result-cases {ℓ} :
    {A : Type ℓ} (r : Result A) → ((a : A) × (r ≡ ok a)) ⊎ ((e : Err) × (r ≡ err e))
Result-cases (ok a) = inl (a, refl)
Result-cases (err e) = inr (e, refl)

-- An early return of an error.
unfoldable pub refuse_if {ℓ} : {A : Type ℓ} → Bool → String → Result A → Result A
refuse_if true message rest = err (plain message)
refuse_if false message rest = rest

pub ok_injective {ℓ} : {A : Type ℓ} {a b : A} → ok a ≡ ok b → a ≡ b
ok_injective e = cc
