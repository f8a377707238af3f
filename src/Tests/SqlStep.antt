-- ===== src/Tests/SqlStep.antt =====
-- A server that counts the executions of a step's body, and the theorems about steps run on it.
use pxc_anonymizer.Strategy.Unicode.{utf8}
use pxc_anonymizer.Prelude.{
  ℕ, suc, ◌≡◌, ◌≢◌, refl, ◌≤◌, true, false, Option, none, some, List, [], ◌∷◌, inr,
}
use pxc_anonymizer.Errors.{ok}
use pxc_anonymizer.Sql.{Value, int64, bool, bytes, SavedRow, Server}
use pxc_anonymizer.Checkpoint.{Key, Progress}
use pxc_anonymizer.SqlStep.{run, execute, record_intent, claim, after_intent, record_done}
use pxc_anonymizer.Sql.{in_tx}
use pxc_anonymizer.Checkpoint.{load, validate, loaded, save}
use pxc_anonymizer.Checkpoint.Cursor.{encode, encode_values, decode, decode_values}
use pxc_anonymizer.Pager.Identifier.{quote_identifier, is_identifier}
use pxc_anonymizer.SqlStep.Durability.{IsDurable, upsert}
use pxc_anonymizer.SqlStep.AtMostOnce.{start, attempt, Attempts-at_most_once, run_reports, done_of}
use pxc_anonymizer.Tests.Formats.{plain_formats}

pub record Memory : Type 0 where
  base : Option SavedRow
  work : Option SavedRow
  count : ℕ

abbrev pub key : Key
key = record {
  run_uid = "run";
  kind = "step";
  database = "shop";
  name = "pre:0:fix";
  policy_hash = "sha256:0";
}

abbrev store_row : Memory → List Value → Memory
store_row m (a ∷ b ∷ c ∷ d ∷ bytes cursor ∷ int64 n ∷ bool f ∷ rest) = record m {
  work =
      some (
        upsert m.work key cursor
          (record { last_pk = []; rows_done = n; done = f; exists = false }));
}
store_row m _ = m

-- `USE` has no arguments, and the saving of a checkpoint row has eight.
abbrev pub memory : Server Memory
memory = record {
  begin_tx = λ m. (ok tt, record m { work = m.base });
  query = λ m text args. (ok [], record m { count = suc m.count });
  query_progress = λ m text args. (ok m.work, m);
  prepare = λ m text. (ok tt, m);
  exec = λ m text args. (ok tt, store_row m args);
  commit = λ m. (ok tt, record m { base = m.work });
  rollback = λ m. m;
}

upsert_eta :
    (o : Option SavedRow) (k : Key) (cursor : List ℕ) (p : Progress)
    → upsert o k cursor
        (record { last_pk = []; rows_done = p.rows_done; done = p.done; exists = false })
      ≡ upsert o k cursor p
upsert_eta none k cursor p = refl
upsert_eta (some r) k cursor p = refl

memory-IsDurable : IsDurable memory key "UPDATE t" (λ m. m.base) (λ m. m.work) (λ m. m.count)
memory-IsDurable = record {
  begin_keeps = λ m. (refl, refl);
  begin_opens = λ m h. refl;
  load_keeps = λ m. (refl, refl, refl);
  load_reads = λ m row h. cc;
  save_keeps = λ m cursor p. (refl, refl);
  save_writes = λ m cursor p h. rw (upsert_eta m.work key cursor p);
  use_keeps = λ m database. (refl, refl);
  body_keeps = λ m. refl;
  body_counts = λ m. refl;
  commit_atomic = λ m. inr refl;
  commit_durable = λ m h. refl;
  commit_keeps = λ m. refl;
  rollback_keeps = λ m. (refl, refl);
}

abbrev pub fresh : Memory
fresh = record { base = none; work = none; count = 0 }

once : Memory → Memory
unfolding run record_intent in_tx load validate loaded claim save encode encode_values after_intent
    execute quote_identifier is_identifier record_done decode decode_values
once m = (run memory plain_formats "shop" "UPDATE t" key false m).1

-- Two calls of `Run` execute the body once.
twice_counts : (once (once fresh)).count ≡ 1
unfolding once utf8
twice_counts = refl

Attempts-at_most_once_example : (once (once fresh)).count ≤ 1
unfolding once utf8
Attempts-at_most_once_example =
    Attempts-at_most_once plain_formats memory-IsDurable {c = fresh} refl refl
      (attempt "shop" false (attempt "shop" false start))

run_reports_example :
    ((run memory plain_formats "shop" "UPDATE t" key false fresh).0 ≡ ok true
      → (fresh.base ≡ none) × ((once fresh).count ≡ 1) × (done_of (once fresh).base ≡ true))
    × (fresh.base ≢ none → (once fresh).count ≡ 0)
unfolding once utf8
run_reports_example = run_reports plain_formats memory-IsDurable "shop" fresh
