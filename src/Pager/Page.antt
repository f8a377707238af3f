-- ===== src/Pager/Page.antt =====
-- The steps of `ProcessPage`: what each keeps, reads and writes.
use pxc_anonymizer.Prelude.{ℕ, ◌≡◌, Bool, true, some, List, map, length, arith, inl, inr}
use pxc_anonymizer.Prelude.Int.{pos, ltb_ℤ}
use pxc_anonymizer.Errors.{Result, ok, Result-cases}
use pxc_anonymizer.Sql.{Value, Server, Ending, commit_and_return}
use pxc_anonymizer.Checkpoint.{Key, Progress, loaded, load, save, load_sql, load_args}
use pxc_anonymizer.Checkpoint.Cursor.{Formats, encode}
use pxc_anonymizer.SqlStep.Durability.{upsert}
use pxc_anonymizer.Pager.{Row, row_of, advanced, update_page, finish_page, page_from}
use pxc_anonymizer.Pager.Statements.{Table, select_sql, select_args}
use pxc_anonymizer.Pager.Storage.{Entry, View, IsStorage}
use pxc_anonymizer.Pager.Rows.{update_page_keeps}

module _ {C : Type 0} {S : Server C} {t : Table} {k : Key} {ignored : Entry → Bool}
    {committed pending : C → View} (L : IsStorage S t k ignored committed pending)
    (F : Formats) where
  pub load_keeps :
      (c : C) → (committed (load F S k c).1 ≡ committed c) × (pending (load F S k c).1 ≡ pending c)
  unfolding load
  load_keeps c = ground (arith, L.load_keeps c)

  pub load_reads :
      (c : C) (p : Progress) → (load F S k c).0 ≡ ok p → loaded F k (pending c).saved ≡ ok p
  unfolding load
  load_reads c p h = elim (Result-cases (S.query_progress c load_sql (load_args k)).0) [
    | inl (row, q) ↦ ground (arith, L.load_reads c row q)
    | inr (x, q) ↦ absurd (ground arith)
  ]

  pub save_keeps : (c : C) (p : Progress) → committed (save F S k p c).1 ≡ committed c
  unfolding save
  save_keeps c p = elim (Result-cases (encode F p.last_pk)) [
    | inl (cursor, q) ↦ ground (arith, L.save_keeps c cursor p)
    | inr (x, q) ↦ ground arith
  ]

  pub save_writes :
      (c : C) (p : Progress)
      → (save F S k p c).0 ≡ ok tt
      → (cursor : List ℕ) × (encode F p.last_pk ≡ ok cursor)
        × (pending (save F S k p c).1
            ≡ record (pending c) { saved = some (upsert (pending c).saved k cursor p) })
  unfolding save
  save_writes c p h = elim (Result-cases (encode F p.last_pk)) [
    | inl (cursor, q) ↦ (cursor, q, ground (arith, L.save_writes c cursor p))
    | inr (x, q) ↦ absurd (ground arith)
  ]

  module _ (transform : Row → Result (List Value)) where
    -- The progress that a page is saved with.
    abbrev pub after_page : Progress → List Row → Progress
    after_page p rows = record (advanced p rows) { done = ltb_ℤ (pos (length rows)) t.page_size }

    pub finish_page_keeps :
        (p : Progress) (rows : List Row) (c : C)
        → committed (finish_page S t transform F k p rows c).1 ≡ committed c
    unfolding finish_page
    finish_page_keeps p rows c =
        let c1 = (update_page S t transform rows c).1 in
        ground (arith, update_page_keeps L transform 0 rows c, save_keeps c1 (after_page p rows))

    -- A page that comes to its commit has updated its rows and saved its progress.
    pub finish_page_steps :
        (p : Progress) (rows : List Row) (c : C) (x : Ending Progress)
        → (finish_page S t transform F k p rows c).0 ≡ ok x
        → let c1 = (update_page S t transform rows c).1 in
          ((update_page S t transform rows c).0 ≡ ok tt)
          × ((save F S k (after_page p rows) c1).0 ≡ ok tt)
          × (x ≡ commit_and_return (record (after_page p rows) { exists = true }))
          × ((finish_page S t transform F k p rows c).1 ≡ (save F S k (after_page p rows) c1).1)
    unfolding finish_page
    finish_page_steps p rows c x h = ground arith

    pub page_from_keeps :
        (p : Progress) (c : C) → committed (page_from S t transform F k p c).1 ≡ committed c
    unfolding page_from
    page_from_keeps p c =
        elim (Result-cases (S.query c (select_sql t p.last_pk) (select_args t p.last_pk)).0) [
          | inl (values, q) ↦
              let c1 = (S.query c (select_sql t p.last_pk) (select_args t p.last_pk)).1 in
              let rows = map (row_of (length t.primary_key)) values in
              ground (arith, L.select_keeps c p.last_pk, finish_page_keeps p rows c1)
          | inr (x, q) ↦ ground (arith, L.select_keeps c p.last_pk)
        ]

    pub page_from_steps :
        (p : Progress) (c : C) (x : Ending Progress)
        → (page_from S t transform F k p c).0 ≡ ok x
        → let selection = S.query c (select_sql t p.last_pk) (select_args t p.last_pk) in
          (values : List (List Value)) × (selection.0 ≡ ok values)
          × (page_from S t transform F k p c
              ≡ finish_page S t transform F k p
                  (map (row_of (length t.primary_key)) values)
                  selection.1)
    unfolding page_from
    page_from_steps p c x h =
        elim (Result-cases (S.query c (select_sql t p.last_pk) (select_args t p.last_pk)).0) [
          | inl (values, q) ↦ (values, q, ground arith)
          | inr (z, q) ↦ absurd (ground arith)
        ]
