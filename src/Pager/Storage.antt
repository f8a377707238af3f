-- ===== src/Pager/Storage.antt =====
-- A table as the pager finds it in the database, and what the pager relies on of the server: its
-- statements read and write the rows in key order, and transactions are atomic and durable.
use pxc_anonymizer.Prelude.{
  ℕ, ◌≡◌, ◌⊎◌, Bool, Option, some, List, [], ◌∷◌, ◌++◌, map, take, if◌then◌else◌,
}
use pxc_anonymizer.Prelude.Int.{pos_part}
use pxc_anonymizer.Errors.{Err, as_mysql, ok, err}
use pxc_anonymizer.Sql.{Value, SavedRow, Server}
use pxc_anonymizer.Checkpoint.{Key, Progress, load_sql, load_args, save_sql, save_args}
use pxc_anonymizer.SqlStep.Durability.{upsert}
use pxc_anonymizer.Pager.Statements.{Table, select_sql, select_args, update_sql}

-- A row of the table: its key, and the columns that the policy rules.
pub record Entry : Type 0 where
  pub pk : List Value
  pub values : List Value

-- The table in the order of its key, and its checkpoint row.
pub record View : Type 0 where
  pub rows : List Entry
  pub saved : Option SavedRow

-- The rows that `NOT (where)` lets through.
abbrev pub selected : (Entry → Bool) → List Entry → List Entry
selected ignored [] = []
selected ignored (e ∷ es) = if ignored e then selected ignored es else e ∷ selected ignored es

-- The key of the last row of a part of the table, the empty cursor if there is none.
abbrev pub end_of : List Value → List Entry → List Value
end_of cursor [] = cursor
end_of cursor (e ∷ es) = end_of e.pk es

abbrev pub columns_of : Entry → List Value
columns_of e = e.pk ++ e.values

-- `committed` is what is durable, `pending` what the open transaction sees; `ignored` is the
-- condition `ignore.where`.
pub record IsStorage {C : Type 0} (S : Server C) (t : Table) (k : Key) (ignored : Entry → Bool)
    (committed pending : C → View) : Type 0 where
  pub begin_keeps : (c : C) → committed (S.begin_tx c).1 ≡ committed c
  pub begin_opens : (c : C) → (S.begin_tx c).0 ≡ ok tt → pending (S.begin_tx c).1 ≡ committed c
  pub load_keeps :
      (c : C)
      → let c' = (S.query_progress c load_sql (load_args k)).1 in
        (committed c' ≡ committed c) × (pending c' ≡ pending c)
  pub load_reads :
      (c : C) (row : Option SavedRow)
      → (S.query_progress c load_sql (load_args k)).0 ≡ ok row
      → row ≡ (pending c).saved
  pub select_keeps :
      (c : C) (cursor : List Value)
      → let c' = (S.query c (select_sql t cursor) (select_args t cursor)).1 in
        (committed c' ≡ committed c) × (pending c' ≡ pending c)
  -- The rows after the cursor, in key order, as many as the limit allows.
  pub select_reads :
      (c : C) (front rest : List Entry) (values : List (List Value))
      → (pending c).rows ≡ front ++ rest
      → (S.query c (select_sql t (end_of [] front)) (select_args t (end_of [] front))).0 ≡ ok values
      → values ≡ map columns_of (take (pos_part t.page_size) (selected ignored rest))
  pub prepare_keeps :
      (c : C)
      → let c' = (S.prepare c (update_sql t)).1 in
        (committed c' ≡ committed c) × (pending c' ≡ pending c)
  pub update_keeps :
      (c : C) (values : List Value) → committed (S.exec c (update_sql t) values).1 ≡ committed c
  -- The row with the given key takes the new values.
  pub update_writes :
      (c : C) (front rest : List Entry) (e : Entry) (values : List Value)
      → (pending c).rows ≡ front ++ (e ∷ rest)
      → (S.exec c (update_sql t) (values ++ e.pk)).0 ≡ ok tt
      → pending (S.exec c (update_sql t) (values ++ e.pk)).1
        ≡ record (pending c) { rows = front ++ (record e { values = values } ∷ rest) }
  -- A duplicate key rolls the statement back, not the transaction.
  pub update_duplicate :
      (c : C) (values : List Value) (e : Err)
      → (S.exec c (update_sql t) values).0 ≡ err e
      → as_mysql e ≡ some 1062
      → pending (S.exec c (update_sql t) values).1 ≡ pending c
  pub save_keeps :
      (c : C) (cursor : List ℕ) (p : Progress)
      → committed (S.exec c save_sql (save_args k cursor p)).1 ≡ committed c
  pub save_writes :
      (c : C) (cursor : List ℕ) (p : Progress)
      → (S.exec c save_sql (save_args k cursor p)).0 ≡ ok tt
      → pending (S.exec c save_sql (save_args k cursor p)).1
        ≡ record (pending c) { saved = some (upsert (pending c).saved k cursor p) }
  pub commit_atomic :
      (c : C) → (committed (S.commit c).1 ≡ committed c) ⊎ (committed (S.commit c).1 ≡ pending c)
  pub commit_durable : (c : C) → (S.commit c).0 ≡ ok tt → committed (S.commit c).1 ≡ pending c
  pub rollback_keeps : (c : C) → committed (S.rollback c) ≡ committed c
