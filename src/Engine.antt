-- ===== src/Engine.antt =====
-- The engine of the runner (internal/runner/engine/engine.go): its connections, its SQL steps, the loop
-- over the pages of a table with its retries, and the counters that it reports. The connection pool, the
-- pause between attempts and the error group that runs tables in parallel are parameters.
pub mod Retries
pub mod Counting
pub mod Columns
pub mod Execution
pub mod Plan
pub mod Numerals
pub mod Ranges
use pxc_anonymizer.Prelude.{
  ℕ, zero, suc, ◌+◌, ◌*◌, ◌^◌, String, ◌<>◌, Bool, true, false, ◌&&◌, ◌||◌, ◌==◌, ◌/=◌, nat_eq,
  text_eq, Option, none, some, List, [], ◌∷◌, map, ltb, leb, min, if◌then◌else◌,
}
use pxc_anonymizer.Prelude.Decimal.{show_text}
use pxc_anonymizer.Prelude.Int.{ℤ, pos, ◌+ℤ◌, ◌-ℤ◌}
use pxc_anonymizer.Errors.{
  Err, failure, joined, Class, transient, policy, is_uncertain, Result, ok, err,
}
use pxc_anonymizer.Sql.{Value, Server, Io, ◌>>=◌, ◌>>◌, pure, fail, lift}
use pxc_anonymizer.Checkpoint.{Key, Progress, no_progress, ensure, drop}
use pxc_anonymizer.Checkpoint.Cursor.{Formats}
use pxc_anonymizer.Report.{classify}
use pxc_anonymizer.SqlStep.{run}

-- The pool of connections, and the pause before another attempt.
pub record Pool (C : Type 0) : Type 0 where
  pub ping : C → Result (Unit {0}) × C
  pub conn : C → Result (Unit {0}) × C
  pub close : C → C
  pub discard : C → C  -- `Raw` with `driver.ErrBadConn`
  pub pause : C → ℕ → Result (Unit {0}) × C

-- The counters of an `execution`, with the rows of each table.
pub record Counters : Type 0 where
  pub rows_done : ℤ
  pub tables_done : ℕ
  pub steps_done : ℕ
  pub rows : List (String × ℤ)

-- The state of a run: everything outside, and the counters.
abbrev pub World : Type 0 → Type 0
World C = C × Counters

abbrev pub rows_of : List (String × ℤ) → String → ℤ
rows_of [] key = pos 0
rows_of ((k, n) ∷ rows) key = if k == key then n else rows_of rows key

abbrev pub with_rows : List (String × ℤ) → String → ℤ → List (String × ℤ)
with_rows [] key n = (key, n) ∷ []
with_rows ((k, m) ∷ rows) key n = if k == key then (k, n) ∷ rows else (k, m) ∷ with_rows rows key n

-- `progress`, without the log. The number of rows stays below 2 ^ 63.
unfoldable pub progress : String → Progress → Counters → Counters
progress key p e = record e {
  rows_done = e.rows_done +ℤ (p.rows_done -ℤ rows_of e.rows key);
  rows = with_rows e.rows key p.rows_done;
  tables_done = if p.done then suc e.tables_done else e.tables_done;
}

-- A reference to a step: its name, its body and whether its failures are passed over.
pub record StepRef : Type 0 where
  pub name : String
  pub body : String
  pub continue_on_error : Bool

abbrev pub second : ℕ
second = 1000000000

-- Whether `Classify` calls an error transient.
abbrev pub is_transient : Err → Bool
is_transient e = elim (classify e).0 [ transient ↦ true | _ ↦ false ]

-- The pause of `connect` doubles up to ten seconds.
abbrev pub next_delay : ℕ → ℕ
next_delay delay = min (delay * 2) (10 * second)

module _ {C : Type 0} (P : Pool C) where
  abbrev pub pinged_again :
      (ℕ → C → Option (Result (Unit {0}) × C))
      → ℕ
      → Result (Unit {0}) × C
      → Option (Result (Unit {0}) × C)
  pinged_again next delay (ok u, c) = next (next_delay delay) c
  pinged_again next delay (err e, c) = some (err e, c)

  abbrev pub pinged :
      (ℕ → C → Option (Result (Unit {0}) × C))
      → ℕ
      → Result (Unit {0}) × C
      → Option (Result (Unit {0}) × C)
  pinged next delay (ok u, c) = some (ok u, c)
  pinged next delay (err e, c) =
      if is_transient e then pinged_again next delay (P.pause c delay) else some (err e, c)

  -- `connect`, on fuel; its deadline is an error of `pause`.
  unfoldable pub connect_loop : ℕ → ℕ → C → Option (Result (Unit {0}) × C)
  connect_loop zero delay c = none
  connect_loop (suc fuel) delay c = pinged (connect_loop fuel) delay (P.ping c)

module _ {C : Type 0} (P : Pool C) (S : Server C) (F : Formats) where
  abbrev pub close_on_error : Result (Unit {0}) × C → Result (Unit {0}) × C
  close_on_error (ok u, c) = (ok u, c)
  close_on_error (err e, c) = (err e, P.close c)

  abbrev pub session : String → Io C (Unit {0})
  session statement c = close_on_error (S.exec c statement [])

  -- `connection`.
  unfoldable pub connection : Bool → Io C (Unit {0})
  connection disable_binlog = do
    λ c. P.conn c
    if disable_binlog then session "SET SESSION sql_log_bin=0" else pure tt
    session "SET SESSION sql_mode=CONCAT_WS(',',@@sql_mode,'STRICT_ALL_TABLES')"

  -- The SQL steps of a phase. Each keeps its place in the phase, `i`, in its key.
  abbrev pub step_key : Key → String → ℕ → StepRef → Key
  step_key key phase i ref = record key {
    kind = "step";
    name = phase <> ":" <> show_text i <> ":" <> ref.name;
  }

  abbrev pub after_step :
      Io (World C) (Unit {0}) → StepRef → Counters → Result Bool × C → Result (Unit {0}) × World C
  after_step next ref e (ok executed, c) = next (c, record e { steps_done = suc e.steps_done })
  after_step next ref e (err x, c) =
      if is_uncertain x || (if ref.continue_on_error then false else true)
      then (err x, (c, e))
      else next (c, e)

  -- `steps`.
  unfoldable pub steps : Key → String → ℕ → List StepRef → Io (World C) (Unit {0})
  steps key phase i [] w = (ok tt, w)
  steps key phase i (ref ∷ refs) (c, e) =
      after_step (steps key phase (suc i) refs) ref e
        (run S F key.database ref.body (step_key key phase i ref) false c)

  -- `truncate` of the engine: the checks are turned on again on every path.
  abbrev pub reset_checks : Result Bool × C → Result (Unit {0}) × C → Result Bool × C
  reset_checks (r, c) (ok u, d) = (r, d)
  reset_checks (ok b, c) (err e, d) = (err e, P.discard d)
  reset_checks (err x, c) (err e, d) = (err (joined x e), P.discard d)

  unfoldable pub truncate_step : Key → String → String → Io C Bool
  truncate_step key table body c =
      let q =
        run S F key.database body (record key { kind = "step"; name = "truncate:" <> table }) false
          c in
      reset_checks q (S.exec q.1 "SET FOREIGN_KEY_CHECKS=1" [])

-- What a round of the loop over the pages leaves: the page's result, the state and whether there is a
-- connection.
abbrev pub Round : Type 0 → Type 0
Round C = Result Progress × (C × Bool)

module _ {C : Type 0} (P : Pool C) (connect : Io C (Unit {0})) (page : Io C Progress)
    (key : String) where
  abbrev pub opened : Result (Unit {0}) × C → Round C
  opened (err e, c) = (err e, (c, false))
  opened (ok u, c) = ((page c).0, ((page c).1, true))

  -- One round: a connection if there is none, and then a page.
  unfoldable pub table_round : C → Bool → Round C
  table_round c true = ((page c).0, ((page c).1, true))
  table_round c false = opened (connect c)

  abbrev pub closed : C → Bool → C
  closed c true = P.close c
  closed c false = c

  -- What `table` returns, with the state and the counters.
  abbrev pub Finish : Type 0
  Finish = Option (Result (Unit {0}) × (C × Counters))

  abbrev pub paused :
      (ℕ → C → Bool → Counters → Finish) → ℕ → Counters → Result (Unit {0}) × C → Finish
  paused next attempt e (ok u, c) = next (suc attempt) c false e
  paused next attempt e (err x, c) = some (err x, (c, e))

  abbrev pub after_round : (ℕ → C → Bool → Counters → Finish) → ℕ → Counters → Round C → Finish
  after_round next attempt e (ok p, (c, held)) =
      if p.done
      then some (ok tt, (closed c held, progress key p e))
      else next 0 c held (progress key p e)
  after_round next attempt e (err x, (c, held)) =
      if (if is_transient x then false else true) || (attempt == 3)
      then some (err x, (closed c held, e))
      else paused next attempt e (P.pause (closed c held) (second * 2 ^ attempt))

  -- The loop of `table`, on fuel, with the failures in a row so far.
  unfoldable pub table_loop : ℕ → ℕ → C → Bool → Counters → Finish
  table_loop zero attempt c held e = none
  table_loop (suc fuel) attempt c held e =
      after_round (table_loop fuel) attempt e (table_round c held)
