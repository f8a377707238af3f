-- ===== src/Pager.antt =====
-- Keyset pages and their resume cursor (internal/runner/pager/pager.go).
pub mod Identifier
pub mod Statements
pub mod Storage
pub mod Updates
pub mod Rows
pub mod Border
pub mod Page
pub mod Resume
pub mod ExactlyOnce
use Prim.Native.Char.{code}
use pxc_anonymizer.Prelude.{
  ℕ, zero, suc, ◌+◌, ◌%◌, String, Bool, true, false, ◌&&◌, ◌||◌, Option, none, some, List, [], ◌∷◌,
  ◌++◌, map, ◌==◌, ◌/=◌, nat_eq, text_eq, list_eq, contains, codes, length, take, drop, leb,
  if◌then◌else◌,
}
use pxc_anonymizer.Prelude.Int.{ℤ, pos, ltb_ℤ, add64, ℤ_beq}
use pxc_anonymizer.Errors.{Err, mysql, plain, as_mysql, Result, ok, err}
use pxc_anonymizer.Sql.{
  Value, Server, Io, ◌>>=◌, ◌>>◌, pure, fail, lift, Ending, return_early, commit_and_return, in_tx,
}
use pxc_anonymizer.Checkpoint.{Key, Progress, load, save}
use pxc_anonymizer.Checkpoint.Cursor.{Formats}
use Identifier.{quote_identifier}
use Statements.{Table, select_sql, select_args, update_sql}

abbrev pub max_unique_attempts : ℕ
max_unique_attempts = 8

pub record Row : Type 0 where
  pub primary_key : List Value
  pub values : List Value
  pub retry : ℕ  -- uint8

-- `QuoteIdentifier` on each name.
unfoldable pub quote_all : List String → Result (Unit {0})
quote_all [] = ok tt
quote_all (name ∷ names) = elim (quote_identifier name) [
  | ok quoted ↦ quote_all names
  | err e ↦ err e
]

-- `strings.ToLower`, on the ASCII letters that an identifier may hold.
unfoldable pub lower : List ℕ → List ℕ
lower [] = []
lower (c ∷ s) = (if leb b'A' c && leb c b'Z' then c + 32 else c) ∷ lower s

-- The loop over `seen`.
unfoldable pub has_duplicate : List (List ℕ) → List String → Bool
has_duplicate seen [] = false
has_duplicate seen (name ∷ names) =
    let folded = lower (codes name) in
    let rest = has_duplicate (folded ∷ seen) names in contains seen folded || rest

-- `Validate`.
unfoldable pub validate : Table → Result (Unit {0})
validate t =
    if (length t.primary_key == 0) || (length t.columns == 0) || ltb_ℤ t.page_size (pos 0)
    then err (plain "page requires primary key, policy columns and a nonnegative page size")
    else elim (quote_all (t.database ∷ t.name ∷ t.primary_key ++ t.columns)) [
      | err e ↦ err e
      | ok u ↦
          if has_duplicate [] (t.primary_key ++ t.columns)
          then err (plain "duplicate columns or primary key mutation are not supported")
          else ok tt
    ]

-- One row of `readRows`, from its scanned values.
abbrev pub row_of : ℕ → List Value → Row
row_of keys values = record { primary_key = take keys values; values = drop keys values; retry = 0 }

-- The key of the last row, or the cursor if there is no row.
abbrev pub last_key : List Value → List Row → List Value
last_key cursor [] = cursor
last_key cursor (row ∷ rows) = last_key row.primary_key rows

-- The cursor and the count after a page; an empty page leaves both.
abbrev pub advanced : Progress → List Row → Progress
advanced p [] = p
advanced p (row ∷ rows) = record p {
  last_pk = last_key row.primary_key rows;
  rows_done = add64 p.rows_done (pos (length (row ∷ rows)));
}

-- A cursor that does not fit the primary key.
abbrev pub is_misshapen : Table → List Value → Bool
is_misshapen t cursor = (length cursor /= 0) && (length cursor /= length t.primary_key)

-- The page size of a table that leaves it out.
abbrev pub with_page_size : Table → Table
with_page_size t = if ℤ_beq t.page_size (pos 0) then record t { page_size = pos 5000 } else t

module _ {C : Type 0} (S : Server C) (t : Table) (transform : Row → Result (List Value)) where
  abbrev pub write : Row → List Value → Io C (Unit {0})
  write row values c =
      if length values /= length t.columns
      then (err (plain "transform returned an incorrect number of columns"), c)
      else S.exec c (update_sql t) (values ++ row.primary_key)

  -- What `updateRow` does with the outcome of one attempt: a duplicate key asks for another one.
  abbrev pub unless_duplicate : Io C (Unit {0}) → Result (Unit {0}) × C → Result (Unit {0}) × C
  unless_duplicate again (ok u, c) = (ok tt, c)
  unless_duplicate again (err e, c) = elim (as_mysql e) [
    | none ↦ (err e, c)
    | some n ↦ if n == 1062 then again c else (err e, c)
  ]

  -- The loop of `updateRow`, from the given attempt on, with the attempts that are left.
  unfoldable pub update_row : ℕ → ℕ → Row → Io C (Unit {0})
  update_row zero attempt row = fail (mysql 1062 "unique constraint retry limit reached")
  update_row (suc left) attempt row =
      let again = update_row left (suc attempt) row in
      do
        values ← lift (transform (record row { retry = attempt % 256 }))
        λ c. unless_duplicate again (write row values c)

  -- The loop over the page.
  unfoldable pub update_rows : List Row → Io C (Unit {0})
  update_rows [] = pure tt
  update_rows (row ∷ rows) = do update_row max_unique_attempts 0 row; update_rows rows

  -- The statement is prepared for a page that is not empty only.
  unfoldable pub update_page : List Row → Io C (Unit {0})
  update_page [] = pure tt
  update_page (row ∷ rows) = do λ c. S.prepare c (update_sql t); update_rows (row ∷ rows)

  module _ (F : Formats) (key : Key) where
    -- `ProcessPage` from the update of the page to the commit.
    unfoldable pub finish_page : Progress → List Row → Io C (Ending Progress)
    finish_page progress page = do
      update_page page
      let progress' = record (advanced progress page) {
        done = ltb_ℤ (pos (length page)) t.page_size;
      }
      save F S key progress'
      pure (commit_and_return (record progress' { exists = true }))

    -- `ProcessPage` between the load of the progress and the commit.
    unfoldable pub page_from : Progress → Io C (Ending Progress)
    page_from progress =
        if is_misshapen t progress.last_pk
        then fail (plain "checkpoint primary key shape differs from this table")
        else (do
          values ← λ c. S.query c (select_sql t progress.last_pk) (select_args t progress.last_pk)
          finish_page progress (map (row_of (length t.primary_key)) values))

    -- The transaction's body after the load.
    unfoldable pub after_load : Progress → Io C (Ending Progress)
    after_load progress = if progress.done then pure (return_early progress) else page_from progress

    -- The transaction of `ProcessPage`.
    unfoldable pub page_tx : Io C Progress
    page_tx = in_tx S (do progress ← load F S key; after_load progress)

-- A checkpoint key that is not the table's.
abbrev pub is_wrong_identity : Table → Key → Bool
is_wrong_identity t key =
    (key.kind /= "table") || (key.database /= t.database) || (key.name /= t.name)

-- `ProcessPage`. The transform is never nil.
unfoldable pub process_page :
    {C : Type 0} → Server C → Formats → Table → Key → (Row → Result (List Value)) → Io C Progress
process_page S F t key transform = do
  lift (validate t)
  lift (
      if is_wrong_identity t key
      then err (plain "page identity or transform is invalid")
      else ok tt)
  page_tx S (with_page_size t) transform F key
