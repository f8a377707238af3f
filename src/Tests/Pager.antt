-- ===== src/Tests/Pager.antt =====
-- A server that holds a table of one row, and the theorems about pages run on it.
use pxc_anonymizer.Strategy.Unicode.{utf8}
use pxc_anonymizer.Prelude.{
  ℕ, ◌≡◌, refl, true, false, Option, none, some, List, [], ◌∷◌, ◌++◌, arith, inr, map, take,
  text_eq, ◌==◌, if◌then◌else◌, codes,
}
use pxc_anonymizer.Prelude.Int.{pos, add64}
use pxc_anonymizer.Errors.{Result, ok}
use pxc_anonymizer.Sql.{Value, int64, bool, bytes, text, SavedRow, Server}
use pxc_anonymizer.Checkpoint.{Key, Progress, save_sql}
use pxc_anonymizer.SqlStep.Durability.{upsert}
use pxc_anonymizer.Sql.{in_tx}
use pxc_anonymizer.Checkpoint
use pxc_anonymizer.Checkpoint.{load, loaded, save}
use pxc_anonymizer.Checkpoint.Cursor.{encode, encode_values, encode_value, format_int}
use pxc_anonymizer.Prelude.Decimal.{show}
use pxc_anonymizer.Prelude.{contains}
use pxc_anonymizer.Pager.Identifier.{quote_identifier, is_identifier}
use pxc_anonymizer.Pager.{
  Row, process_page, validate, quote_all, has_duplicate, lower, page_tx, after_load, page_from,
  finish_page, update_page, update_rows, update_row,
}
use pxc_anonymizer.Pager.Statements.{Table, update_sql, select_args}
use pxc_anonymizer.Pager.Storage.{selected, Entry, View, IsStorage, end_of, columns_of}
use pxc_anonymizer.Pager.Updates.{Images}
use pxc_anonymizer.Pager.ExactlyOnce.{start, page, Pages-exactly_once, done_complete}
use pxc_anonymizer.Tests.Formats.{plain_formats, plain_formats-IsLossless}

-- The committed state of the one row and its checkpoint, and the transaction's.
record Memory : Type 0 where
  base : List Value
  base_saved : Option SavedRow
  work : List Value
  work_saved : Option SavedRow

abbrev table : Table
table = record {
  database = "shop";
  name = "users";
  primary_key = "id" ∷ [];
  columns = "email" ∷ [];
  ignore_where = "";
  page_size = pos 2;
}

abbrev key : Key
key = record {
  run_uid = "run";
  kind = "table";
  database = "shop";
  name = "users";
  policy_hash = "sha256:0";
}

abbrev one : List Value
one = int64 (pos 1) ∷ []

abbrev view : List Value → Option SavedRow → View
view values saved = record { rows = record { pk = one; values = values } ∷ []; saved = saved }

abbrev store_row : Memory → List Value → Memory
store_row m (a ∷ b ∷ c ∷ d ∷ bytes cursor ∷ int64 n ∷ bool f ∷ rest) = record m {
  work_saved = some (
      upsert m.work_saved key cursor
        (record { last_pk = []; rows_done = n; done = f; exists = false }));
}
store_row m _ = m

-- All but the last argument of the update, which is the row's key.
abbrev without_last : List Value → List Value
without_last [] = []
without_last (v ∷ []) = []
without_last (v ∷ w ∷ vs) = v ∷ without_last (w ∷ vs)

-- The limit is the only argument of a selection without a cursor.
abbrev after_cursor : Memory → List Value → List (List Value)
after_cursor m (limit ∷ []) = (int64 (pos 1) ∷ m.work) ∷ []
after_cursor m _ = []

abbrev memory : Server Memory
memory = record {
  begin_tx = λ m. (ok tt, record m { work = m.base; work_saved = m.base_saved });
  query = λ m text args. (ok (after_cursor m args), m);
  query_progress = λ m text args. (ok m.work_saved, m);
  prepare = λ m text. (ok tt, m);
  exec = λ m text args.
      (ok tt, if text == save_sql then store_row m args else record m { work = without_last args });
  commit = λ m. (ok tt, record m { base = m.work; base_saved = m.work_saved });
  rollback = λ m. m;
}

without_last-snoc : (vs : List Value) (v : Value) → without_last (vs ++ (v ∷ [])) ≡ vs
without_last-snoc [] v = refl
without_last-snoc (w ∷ []) v = refl
without_last-snoc (w ∷ x ∷ vs) v = rw (without_last-snoc (x ∷ vs) v)

upsert_eta :
    (o : Option SavedRow) (k : Key) (cursor : List ℕ) (p : Progress)
    → upsert o k cursor
        (record { last_pk = []; rows_done = p.rows_done; done = p.done; exists = false })
      ≡ upsert o k cursor p
upsert_eta none k cursor p = refl
upsert_eta (some r) k cursor p = refl

cons_injective {ℓ} : {A : Type ℓ} {x y : A} {xs ys : List A} → x ∷ xs ≡ y ∷ ys → (x ≡ y) × (xs ≡ ys)
cons_injective h = (cc, cc)

nil_ne_append {ℓ} : {A : Type ℓ} (xs ys : List A) (y : A) → [] ≡ xs ++ (y ∷ ys) → ⊥
nil_ne_append [] ys y h = cc
nil_ne_append (x ∷ xs) ys y h = cc

selects :
    (m : Memory) (front rest : List Entry) (values : List (List Value))
    → (view m.work m.work_saved).rows ≡ front ++ rest
    → ok (after_cursor m (select_args table (end_of [] front))) ≡ ok values
    → values ≡ map columns_of (take 2 (selected (λ e. false) rest))
unfolding select_args
selects m [] rest values split h = rw (← split) (cc)
selects m (e ∷ []) rest values split h =
    let (head, tail) = cons_injective split in rw (← tail) (cc (rw (← head) at h))
selects m (e ∷ f ∷ front) rest values split h = let (head, tail) = cons_injective split in cc tail

updates :
    (m : Memory) (front rest : List Entry) (e : Entry) (values : List Value)
    → (view m.work m.work_saved).rows ≡ front ++ (e ∷ rest)
    → view (without_last (values ++ e.pk)) m.work_saved
      ≡ record (view m.work m.work_saved) { rows = front ++ (record e { values = values } ∷ rest) }
updates m [] rest e values split =
    let (head, tail) = cons_injective split in rw (← head, ← tail, without_last-snoc)
updates m (f ∷ front) rest e values split =
    absurd (nil_ne_append front rest e (cons_injective split).1)

memory-IsStorage :
    IsStorage memory table key
      (λ e. false)
      (λ m. view m.base m.base_saved)
      (λ m. view m.work m.work_saved)
unfolding update_sql
memory-IsStorage = record {
  begin_keeps = λ m. refl;
  begin_opens = λ m h. refl;
  load_keeps = λ m. (refl, refl);
  load_reads = λ m row h. cc;
  select_keeps = λ m cursor. (refl, refl);
  select_reads = selects;
  prepare_keeps = λ m. (refl, refl);
  update_keeps = λ m values. refl;
  update_writes = λ m front rest e values split h. updates m front rest e values split;
  update_duplicate = λ m values e h d. absurd (cc);
  save_keeps = λ m cursor p. refl;
  save_writes = λ m cursor p h. rw (upsert_eta m.work_saved key cursor p);
  commit_atomic = λ m. inr refl;
  commit_durable = λ m h. refl;
  rollback_keeps = λ m. refl;
}

abbrev fresh : Memory
fresh = record {
  base = text (codes "ann@example.org") ∷ [];
  base_saved = none;
  work = [];
  work_saved = none;
}

abbrev originals : List Entry
originals = (view fresh.base none).rows

-- The transform of the test: every column becomes the text `x`.
abbrev masked : Row → Result (List Value)
masked row = ok (text (codes "x") ∷ [])

one_page : Memory → Result Progress × Memory
unfolding process_page validate quote_all quote_identifier is_identifier has_duplicate lower
    contains page_tx in_tx load Checkpoint.validate loaded after_load page_from select_args
    finish_page update_page update_rows update_row update_sql save encode encode_values encode_value
    format_int show add64
one_page m = process_page memory plain_formats table key masked m

abbrev finished : Progress
finished = record { last_pk = one; rows_done = pos 1; done = true; exists = true }

page_runs : (one_page fresh).0 ≡ ok finished × ((one_page fresh).1.base ≡ text (codes "x") ∷ [])
unfolding one_page utf8
page_runs = (refl, refl)

done_complete_example :
    Images masked (λ e. false) originals (view (one_page fresh).1.base none).rows
unfolding one_page utf8
done_complete_example =
    done_complete table memory-IsStorage plain_formats plain_formats-IsLossless masked originals
      (refl, tt) ((omega arith, tt), tt) {c = fresh} finished refl refl start page_runs.0 refl

Pages-exactly_once_example :
    (gone : List Entry) × (written : List Entry) × (left : List Entry) × (originals ≡ gone ++ left)
    × ((view (one_page fresh).1.base (one_page fresh).1.base_saved).rows ≡ written ++ left)
    × Images masked (λ e. false) gone written
unfolding one_page utf8
Pages-exactly_once_example =
    Pages-exactly_once table memory-IsStorage plain_formats plain_formats-IsLossless masked
      originals (refl, tt) ((omega arith, tt), tt) {c = fresh} refl refl (page start)
