-- ===== src/Sql.antt =====
-- What the runner asks of `database/sql` and the MySQL driver, as an interface, and the monad of
-- calls that may fail. The server and the driver are not part of the repository: they are the
-- parameter `Server C`, where `C` is everything outside the program (the connection, the data, the
-- failures to come), so that any call may answer anything that its laws do not exclude.
use pxc_anonymizer.Prelude.{ℕ, String, Bool, true, false, Option, List, ◌≡◌, refl, if◌then◌else◌}
use pxc_anonymizer.Prelude.Int.{ℤ}
use pxc_anonymizer.Errors.{Err, Result, ok, err, ok_injective}

-- A driver value. A `float64` and a `time.Time` are held by the text that `strconv` and
-- `time.RFC3339Nano` give them; `foreign` is a value of any other Go type, with its name.
pub data Value : Type 0 where
  null : Value
  bytes : List ℕ → Value
  text : List ℕ → Value
  int64 : ℤ → Value
  uint64 : ℕ → Value
  float64 : List ℕ → Value
  bool : Bool → Value
  time : List ℕ → Value
  foreign : String → Value

-- A row of `_pxc_anonymizer.progress` as `Scan` delivers it; a NULL cursor is the empty text.
pub record SavedRow : Type 0 where
  pub cursor : List ℕ
  pub rows_done : ℤ
  pub done : Bool
  pub policy_hash : String

pub record Server (C : Type 0) : Type 0 where
  pub begin_tx : C → Result (Unit {0}) × C
  -- `QueryContext`, with the rows read to the end and closed.
  pub query : C → String → List Value → Result (List (List Value)) × C
  -- `QueryRowContext` and `Scan` into the four variables of `checkpoint.Load`; `none` is
  -- `sql.ErrNoRows`.
  pub query_progress : C → String → List Value → Result (Option SavedRow) × C
  pub prepare : C → String → Result (Unit {0}) × C
  pub exec : C → String → List Value → Result (Unit {0}) × C
  pub commit : C → Result (Unit {0}) × C
  pub rollback : C → C

-- A computation that talks to the server and may fail.
abbrev pub Io {ℓ} : Type 0 → Type ℓ → Type ℓ
Io C A = C → Result A × C

module _ {ℓ κ} {C : Type 0} {A : Type ℓ} {B : Type κ} where
  -- The second call is made only if the first succeeds.
  abbrev pub then_with : (A → Io C B) → Result A × C → Result B × C
  then_with f (ok a, c) = f a c
  then_with f (err e, c) = (err e, c)

infixl 5 ◌>>=◌ ◌>>◌
abbrev pub ◌>>=◌ {ℓ κ} : {C : Type 0} {A : Type ℓ} {B : Type κ} → Io C A → (A → Io C B) → Io C B
◌>>=◌ m f c = then_with f (m c)

abbrev pub ◌>>◌ {ℓ} : {C : Type 0} {B : Type ℓ} → Io C (Unit {0}) → Io C B → Io C B
m >> k = m >>= λ _. k

abbrev pub pure {ℓ} : {C : Type 0} {A : Type ℓ} → A → Io C A
pure a c = (ok a, c)

abbrev pub fail {ℓ} : {C : Type 0} {A : Type ℓ} → Err → Io C A
fail e c = (err e, c)

-- A pure result as a computation.
abbrev pub lift {ℓ} : {C : Type 0} {A : Type ℓ} → Result A → Io C A
lift r c = (r, c)

-- How a function body that has begun a transaction ends: by a plain `return`, on which the deferred
-- rollback acts, or by `Commit` and a `return`, after which that rollback does nothing.
pub data Ending {ℓ} (A : Type ℓ) : Type ℓ where
  return_early : A → Ending A
  commit_and_return : A → Ending A

module _ {ℓ} {C : Type 0} {A : Type ℓ} where
  abbrev pub after_commit : A → Result (Unit {0}) × C → Result A × C
  after_commit a (ok u, c) = (ok a, c)
  after_commit a (err e, c) = (err e, c)

  abbrev pub finish : Server C → Result (Ending A) × C → Result A × C
  finish S (err e, c) = (err e, S.rollback c)
  finish S (ok (return_early a), c) = (ok a, S.rollback c)
  finish S (ok (commit_and_return a), c) = after_commit a (S.commit c)

  abbrev pub begun : Server C → Io C (Ending A) → Result (Unit {0}) × C → Result A × C
  begun S body (err e, c) = (err e, c)
  begun S body (ok u, c) = finish S (body c)

  -- `BeginTx`, `defer tx.Rollback()`, the body, and `Commit`.
  unfoldable pub in_tx : Server C → Io C (Ending A) → Io C A
  in_tx S body c = begun S body (S.begin_tx c)

-- What a call that succeeds returns.
abbrev pub IsGood {ℓ κ} : {B : Type ℓ} → (B → Type κ) → Result B → Type κ
IsGood P (ok b) = P b
IsGood P (err e) = Unit

abbrev pub Yields {ℓ κ} : {C : Type 0} {B : Type ℓ} → (B → Type κ) → Result B × C → Type κ
Yields P q = IsGood P q.0

module _ {ℓ κ} {C : Type 0} {D : Type ℓ} (P : D → Type κ) where
  pub then-Yields {μ} :
      {B : Type ℓ} (Q : B → Type μ) (q : Result B × C) (f : B → Io C D)
      → Yields Q q
      → ((b : B) (c : C) → Q b → Yields P (f b c))
      → Yields P (then_with f q)
  then-Yields Q (ok b, c) f h k = k b c h
  then-Yields Q (err e, c) f h k = tt

  -- The same, where nothing is known of what the first call returns.
  pub after-Yields {μ} :
      {B : Type μ} (q : Result B × C) (f : B → Io C D)
      → ((b : B) (c : C) → Yields P (f b c))
      → Yields P (then_with f q)
  after-Yields (ok b, c) f k = k b c
  after-Yields (err e, c) f k = tt

  pub if-Yields :
      (b : Bool) (x y : Io C D) (c : C)
      → (b ≡ true → Yields P (x c))
      → (b ≡ false → Yields P (y c))
      → Yields P ((if b then x else y) c)
  if-Yields true x y c f g = f refl
  if-Yields false x y c f g = g refl

  pub Yields-ok : (q : Result D × C) (b : D) → Yields P q → q.0 ≡ ok b → P b
  Yields-ok (ok a, c) b h e = rw⁻¹ (ok_injective e) h
  Yields-ok (err x, c) b h e = absurd (cc)
