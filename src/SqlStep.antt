-- ===== src/SqlStep.antt =====
-- SQL steps (internal/runner/sqlstep/sqlstep.go).
pub mod Durability
pub mod AtMostOnce
pub mod Truncate
use pxc_anonymizer.Prelude.{
  String, ◌<>◌, Bool, true, false, ◌||◌, Option, none, some, [], ◌==◌, ◌/=◌, text_eq, if◌then◌else◌,
}
use pxc_anonymizer.Errors.{Err, plain, uncertain, joined, Result, ok, err}
use pxc_anonymizer.Sql.{
  Server, Io, ◌>>=◌, ◌>>◌, pure, fail, lift, Ending, return_early, commit_and_return, in_tx,
}
use pxc_anonymizer.Checkpoint.{Key, Progress, no_progress, load, save}
use pxc_anonymizer.Checkpoint.Cursor.{Formats}
use pxc_anonymizer.Pager.Identifier.{quote_identifier}

abbrev pub join_uncertain {ℓ} : {C : Type 0} {A : Type ℓ} → Result A × C → Result A × C
join_uncertain (ok a, c) = (ok a, c)
join_uncertain (err e, c) = (err (joined uncertain e), c)

-- `errors.Join(ErrUncertainOutcome, err)` on every error of a computation.
abbrev pub or_uncertain {ℓ} : {C : Type 0} {A : Type ℓ} → Io C A → Io C A
or_uncertain m c = join_uncertain (m c)

module _ {C : Type 0} (S : Server C) where
  -- `Execute`, with the loop over the result sets inside the server's `query`.
  unfoldable pub execute : String → String → Bool → Io C (Unit {0})
  execute database body dry_run = do
    quoted ← lift (quote_identifier database)
    lift (if body == "" then err (plain "SQL step body is empty") else ok tt)
    if dry_run
        then pure tt
        else do λ c. S.exec c ("USE " <> quoted) []; rows ← λ c. S.query c body []; pure tt

  module _ (F : Formats) where
    -- The tests of `Run` on the loaded progress, and the saving of the intent.
    unfoldable pub claim : Key → Progress → Io C (Ending (Option Bool))
    claim key progress =
        if progress.exists
        then (if progress.done then pure (return_early (some false)) else fail uncertain)
        else (do save F S key no_progress; pure (commit_and_return none))

    -- The first transaction of `Run`: `some done` is what `Run` returns at once, and after `none`
    -- the intent is durable.
    unfoldable pub record_intent : Key → Io C (Option Bool)
    record_intent key = in_tx S (do progress ← load F S key; claim key progress)

    -- The second transaction of `Run`.
    unfoldable pub record_done : Key → Io C (Unit {0})
    record_done key =
        in_tx S (do save F S key (record no_progress { done = true }); pure (commit_and_return tt))

    -- `Run` after the first transaction.
    unfoldable pub after_intent : String → String → Key → Option Bool → Io C Bool
    after_intent database body key (some executed) = pure executed
    after_intent database body key none = do
      or_uncertain (execute database body false)
      or_uncertain (record_done key)
      pure true

    -- `Run`: whether the body was executed now.
    unfoldable pub run : String → String → Key → Bool → Io C Bool
    run database body key dry_run =
        if (key.kind /= "step") || (key.database /= database)
        then fail (plain "SQL step checkpoint identity is invalid")
        else if dry_run
        then (do execute database body true; pure false)
        else (do intent ← record_intent key; after_intent database body key intent)
