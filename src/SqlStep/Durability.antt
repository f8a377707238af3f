-- ===== src/SqlStep/Durability.antt =====
-- What a step relies on of the server: transactions are atomic and durable, and neither `USE` nor
-- the body of the step touches the step's checkpoint row.
use pxc_anonymizer.Prelude.{ℕ, suc, ◌≡◌, ◌⊎◌, String, ◌<>◌, Option, none, some, List, []}
use pxc_anonymizer.Errors.{ok}
use pxc_anonymizer.Sql.{SavedRow, Server}
use pxc_anonymizer.Checkpoint.{Key, Progress, load_sql, load_args, save_sql, save_args}

-- The row after `INSERT … ON DUPLICATE KEY UPDATE`: an existing row keeps its policy hash.
abbrev pub upsert : Option SavedRow → Key → List ℕ → Progress → SavedRow
upsert none k cursor p = record {
  cursor = cursor;
  rows_done = p.rows_done;
  done = p.done;
  policy_hash = k.policy_hash;
}
upsert (some r) k cursor p = record r { cursor = cursor; rows_done = p.rows_done; done = p.done }

-- `saved` is the committed checkpoint row of the key, `pending` the one that the open transaction
-- sees, and `runs` how often the server has received the body.
pub record IsDurable {C : Type 0} (S : Server C) (k : Key) (body : String)
    (saved pending : C → Option SavedRow) (runs : C → ℕ) : Type 0 where
  pub begin_keeps : (c : C) → (saved (S.begin_tx c).1 ≡ saved c) × (runs (S.begin_tx c).1 ≡ runs c)
  pub begin_opens : (c : C) → (S.begin_tx c).0 ≡ ok tt → pending (S.begin_tx c).1 ≡ saved c
  pub load_keeps :
      (c : C)
      → let c' = (S.query_progress c load_sql (load_args k)).1 in
        (saved c' ≡ saved c) × (runs c' ≡ runs c) × (pending c' ≡ pending c)
  pub load_reads :
      (c : C) (row : Option SavedRow)
      → (S.query_progress c load_sql (load_args k)).0 ≡ ok row
      → row ≡ pending c
  pub save_keeps :
      (c : C) (cursor : List ℕ) (p : Progress)
      → let c' = (S.exec c save_sql (save_args k cursor p)).1 in
        (saved c' ≡ saved c) × (runs c' ≡ runs c)
  pub save_writes :
      (c : C) (cursor : List ℕ) (p : Progress)
      → (S.exec c save_sql (save_args k cursor p)).0 ≡ ok tt
      → pending (S.exec c save_sql (save_args k cursor p)).1 ≡ some (upsert (pending c) k cursor p)
  pub use_keeps :
      (c : C) (database : String)
      → let c' = (S.exec c ("USE " <> database) []).1 in (saved c' ≡ saved c) × (runs c' ≡ runs c)
  pub body_keeps : (c : C) → saved (S.query c body []).1 ≡ saved c
  pub body_counts : (c : C) → runs (S.query c body []).1 ≡ suc (runs c)
  pub commit_atomic :
      (c : C) → (saved (S.commit c).1 ≡ saved c) ⊎ (saved (S.commit c).1 ≡ pending c)
  pub commit_durable : (c : C) → (S.commit c).0 ≡ ok tt → saved (S.commit c).1 ≡ pending c
  pub commit_keeps : (c : C) → runs (S.commit c).1 ≡ runs c
  pub rollback_keeps : (c : C) → (saved (S.rollback c) ≡ saved c) × (runs (S.rollback c) ≡ runs c)
