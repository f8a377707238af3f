-- ===== src/Checkpoint.antt =====
-- The durable cursor of a table or step (internal/runner/checkpoint/checkpoint.go).
pub mod Cursor
pub mod RoundTrip
use pxc_anonymizer.Prelude.{
  ℕ, String, ◌<>◌, Bool, true, false, ◌&&◌, ◌||◌, Option, none, some, List, [], ◌∷◌, ltb, ◌==◌,
  ◌/=◌, text_eq, nat_eq, list_eq, codes, if◌then◌else◌, length,
}
use pxc_anonymizer.Prelude.Int.{ℤ, pos, ltb_ℤ}
use pxc_anonymizer.Errors.{Err, plain, Result, ok, err}
use pxc_anonymizer.Sql.{
  Value, text, int64, bool, SavedRow, Server, Io, ◌>>=◌, ◌>>◌, pure, fail, lift,
}
use pxc_anonymizer.Strategy.Unicode.{utf8}
use Cursor.{Formats, encode, decode}

pub record Key : Type 0 where
  pub run_uid : String
  pub kind : String
  pub database : String
  pub name : String
  pub policy_hash : String

pub record Progress : Type 0 where
  pub last_pk : List Value
  pub rows_done : ℤ
  pub done : Bool
  pub exists : Bool

-- `Progress{}`.
abbrev pub no_progress : Progress
no_progress = record { last_pk = []; rows_done = pos 0; done = false; exists = false }

-- The length of a Go string, which is in bytes.
abbrev pub byte_length : String → ℕ
byte_length s = length (utf8 (codes s))

unfoldable pub validate : Key → Result (Unit {0})
validate k =
    if (k.run_uid == "")
      || ltb 128 (byte_length k.run_uid)
      || (k.database == "")
      || ltb 64 (byte_length k.database)
      || (k.name == "")
      || ltb 128 (byte_length k.name)
      || (k.policy_hash == "")
      || ltb 80 (byte_length k.policy_hash)
      || ((k.kind /= "step") && (k.kind /= "table"))
    then err (plain "invalid checkpoint identity")
    else ok tt

abbrev pub schema_sql : String
schema_sql = "CREATE SCHEMA IF NOT EXISTS `_pxc_anonymizer`"

abbrev pub table_sql : String
table_sql =
    "CREATE TABLE IF NOT EXISTS _pxc_anonymizer.progress (\n"
    <> ("run_uid VARCHAR(128) NOT NULL, kind ENUM('step','table') NOT NULL,\n"
        <> ("db VARCHAR(64) NOT NULL, name VARCHAR(128) NOT NULL, last_pk JSON,\n"
            <> ("rows_done BIGINT NOT NULL DEFAULT 0, done BOOL NOT NULL DEFAULT FALSE,\n"
                <> ("policy_hash VARCHAR(80) NOT NULL, updated_at TIMESTAMP(6) NOT NULL DEFAULT CURRENT_TIMESTAMP(6),\n"
                    <> ("PRIMARY KEY (run_uid, kind, db, name)\n"
                        <> ") ENGINE=InnoDB DEFAULT CHARSET=utf8mb4 COLLATE=utf8mb4_bin")))))

abbrev pub drop_sql : String
drop_sql = "DROP SCHEMA IF EXISTS `_pxc_anonymizer`"

abbrev pub load_sql : String
load_sql =
    "SELECT last_pk, rows_done, done, policy_hash\n"
    <> "FROM _pxc_anonymizer.progress WHERE run_uid=? AND kind=? AND db=? AND name=? FOR UPDATE"

abbrev pub save_sql : String
save_sql =
    "INSERT INTO _pxc_anonymizer.progress\n"
    <> ("(run_uid,kind,db,name,last_pk,rows_done,done,policy_hash) VALUES (?,?,?,?,?,?,?,?)\n"
        <> ("ON DUPLICATE KEY UPDATE last_pk=VALUES(last_pk), rows_done=VALUES(rows_done),\n"
            <> "done=VALUES(done), updated_at=CURRENT_TIMESTAMP(6)"))

abbrev pub load_args : Key → List Value
load_args k =
    text (codes k.run_uid)
    ∷ text (codes k.kind)
    ∷ text (codes k.database)
    ∷ text (codes k.name)
    ∷ []

abbrev pub save_args : Key → List ℕ → Progress → List Value
save_args k cursor p =
    text (codes k.run_uid)
    ∷ text (codes k.kind)
    ∷ text (codes k.database)
    ∷ text (codes k.name)
    ∷ Value.bytes cursor
    ∷ int64 p.rows_done
    ∷ bool p.done
    ∷ text (codes k.policy_hash)
    ∷ []

abbrev with_cursor : SavedRow → Result (List Value) → Result Progress
with_cursor r (ok pk) =
    ok (record { last_pk = pk; rows_done = r.rows_done; done = r.done; exists = true })
with_cursor r (err e) = err e

-- `Ensure`.
unfoldable pub ensure : {C : Type 0} → Server C → Io C (Unit {0})
ensure S = do (λ c. S.exec c schema_sql []); λ c. S.exec c table_sql []

-- `Drop`.
unfoldable pub drop : {C : Type 0} → Server C → Io C (Unit {0})
drop S c = S.exec c drop_sql []

module _ (F : Formats) where
  -- What `Load` makes of the row that it read.
  unfoldable pub loaded : Key → Option SavedRow → Result Progress
  loaded k none = ok no_progress
  loaded k (some r) =
      if r.policy_hash /= k.policy_hash
      then err (plain "checkpoint policy hash differs from this run")
      else with_cursor r (if length r.cursor == 0 then ok [] else decode F r.cursor)

  module _ {C : Type 0} (S : Server C) where
    -- `Load`, within a transaction. On an error the source returns a progress too, which no caller
    -- reads.
    unfoldable pub load : Key → Io C Progress
    load k = do
      lift (validate k)
      row ← λ c. S.query_progress c load_sql (load_args k)
      lift (loaded k row)

    -- `Save`, within a transaction.
    unfoldable pub save : Key → Progress → Io C (Unit {0})
    save k p = do
      lift (validate k)
      lift (
          if ltb_ℤ p.rows_done (pos 0)
          then err (plain "checkpoint row count cannot be negative")
          else ok tt)
      cursor ← lift (encode F p.last_pk)
      λ c. S.exec c save_sql (save_args k cursor p)
