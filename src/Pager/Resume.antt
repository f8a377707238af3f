-- ===== src/Pager/Resume.antt =====
-- Where pages resume: `ProcessPage` and the border.
use pxc_anonymizer.Prelude.{
  ℕ, ◌<◌, ◌≡◌, ◌≢◌, refl, sym, ap, ◌∙◌, Bool, true, false, List, [], ◌∷◌, map, take, length,
  length-map, arith, All, Bool-cases, inl, inr,
}
use pxc_anonymizer.Prelude.Int.{ℤ, pos, ltb_ℤ, pos_part}
use pxc_anonymizer.Errors.{Err, Result, ok, err, Result-cases}
use pxc_anonymizer.Sql.{
  Value, Server, Ending, return_early, commit_and_return, after_commit, finish, in_tx,
}
use pxc_anonymizer.Checkpoint.{Key, Progress, loaded, load}
use pxc_anonymizer.Checkpoint.Cursor.{Formats}
use pxc_anonymizer.Checkpoint.RoundTrip.{IsLossless, IsKeyValue}
use pxc_anonymizer.Pager.{
  Row, row_of, last_key, advanced, update_page, finish_page, page_from, after_load, page_tx,
}
use pxc_anonymizer.Pager.Statements.{Table, select_sql, select_args}
use pxc_anonymizer.Pager.Storage.{Entry, View, IsStorage, selected}
use pxc_anonymizer.Pager.Updates.{Images}
use pxc_anonymizer.Pager.Rows.{IsKeyed, page_rows, update_page-Advance}
use pxc_anonymizer.Pager.Border.{
  IsBorder, IsBorder-done, IsBorder-Advance, IsBorder-exhausted, All-split,
}
use pxc_anonymizer.Pager.Page.{
  load_keeps, load_reads, save_writes, after_page, finish_page_steps, page_from_keeps,
  page_from_steps,
}

after_page-last_pk :
    (t : Table) (p : Progress) (rows : List Row)
    → (record (advanced p rows) { done = ltb_ℤ (pos (length rows)) t.page_size }).last_pk
      ≡ last_key p.last_pk rows
after_page-last_pk t p [] = refl
after_page-last_pk t p (row ∷ rows) = refl

short_page : (l : ℕ) (size : ℤ) → ltb_ℤ (pos l) size ≡ true → l < pos_part size
short_page l size h = ground arith

progress_injective : {p q : Progress} → ok q ≡ ok p → q ≡ p
progress_injective h = cc

module _ {C : Type 0} {S : Server C} {t : Table} {k : Key} {ignored : Entry → Bool}
    {committed pending : C → View} (L : IsStorage S t k ignored committed pending) (F : Formats)
    (lossless : IsLossless F) (transform : Row → Result (List Value)) (originals : List Entry)
    (shaped : All (IsKeyed (length t.primary_key)) originals)
    (keyed : All (λ e. All (IsKeyValue F) e.pk) originals) where
  -- The table is on its way from the original rows.
  abbrev Border : View → Type 0
  Border = IsBorder F k transform ignored originals

  finish_page-IsBorder :
      (p : Progress) (rows : List Row) (c : C) (x : Ending Progress) (b : Border (pending c))
      → loaded F k (pending c).saved ≡ ok p
      → rows
        ≡ page_rows (length t.primary_key) (take (pos_part t.page_size) (selected ignored b.left))
      → (finish_page S t transform F k p rows c).0 ≡ ok x
      → let v = pending (finish_page S t transform F k p rows c).1 in
        (q : Progress) × (x ≡ commit_and_return q)
        × Border v
        × (q.done ≡ true → Images transform ignored originals v.rows)
  finish_page-IsBorder p rows c x b loads page h =
      let (updated, saved, ending, same) = finish_page_steps L F transform p rows c x h in
      let c1 = (update_page S t transform rows c).1 in
      let (cursor, encoded, written) = save_writes L F c1 (after_page L F transform p rows) saved in
      let a =
        update_page-Advance L transform (length t.primary_key) (pos_part t.page_size) b.left
          b.written rows c (All-split _ b.gone b.left (rw b.original at shaped)).1 b.split page
          updated in
      (
        _,
        ending,
        rw (same, written)
            (IsBorder-Advance F k transform ignored originals lossless (length t.primary_key) keyed
              (pos_part t.page_size) rows (pending c) (pending c1) p
              (after_page L F transform p rows) cursor b loads page a (after_page-last_pk t p rows)
              (short_page (length rows) t.page_size) encoded),
        λ d.
            rw (same, written)
              (IsBorder-exhausted F k transform ignored originals (length t.primary_key)
                (pos_part t.page_size) (pending c) (pending c1) b a
                (rw (page, length-map, length-map) at (short_page (length rows) t.page_size d))),
      )

  page_from-IsBorder :
      (p : Progress) (c : C) (x : Ending Progress)
      → Border (pending c)
      → loaded F k (pending c).saved ≡ ok p
      → (page_from S t transform F k p c).0 ≡ ok x
      → let v = pending (page_from S t transform F k p c).1 in
        (q : Progress) × (x ≡ commit_and_return q)
        × Border v
        × (q.done ≡ true → Images transform ignored originals v.rows)
  page_from-IsBorder p c x b loads h =
      let (values, read, same) = page_from_steps L F transform p c x h in
      let c1 = (S.query c (select_sql t p.last_pk) (select_args t p.last_pk)).1 in
      let kept = (L.select_keeps c p.last_pk).1 in
      let b1 : Border (pending c1) = rw kept b in
      let loads1 : loaded F k (pending c1).saved ≡ ok p = rw kept loads in
      let rows = map (row_of (length t.primary_key)) values in
      let reads =
        L.select_reads c b1.written b1.left values (ap (λ (v : View). v.rows) (sym kept) ∙ b1.split)
          (rw (b1.resumes p loads1).0 at read) in
      rw same (
        finish_page-IsBorder p rows c1 x b1 loads1 (ap (map (row_of (length t.primary_key))) reads)
          (rw same at h))

  -- The outcome of a transaction: the border is kept, and a progress that says `done` tells the truth.
  abbrev Outcome : Result Progress × C → Type 0
  Outcome r =
      Border (committed r.1)
      × ((p : Progress)
          → r.0 ≡ ok p
          → p.done ≡ true
          → Images transform ignored originals (committed r.1).rows)

  commit-Outcome :
      (q : Progress) (c : C)
      → Border (committed c)
      → Border (pending c)
      → (q.done ≡ true → Images transform ignored originals (pending c).rows)
      → (r : Result (Unit {0})) → (S.commit c).0 ≡ r
      → Outcome (after_commit q (r, (S.commit c).1))
  commit-Outcome q c old new all (ok u) e =
      let durable = L.commit_durable c e in
      (rw durable new, λ p h d. rw durable (all (rw (progress_injective h) d)))
  commit-Outcome q c old new all (err x) e = elim (L.commit_atomic c) [
    | inl before ↦ (rw before old, λ p h d. absurd (cc))
    | inr after ↦ (rw after new, λ p h d. absurd (cc))
  ]

  -- The end of a transaction, from what its body left.
  finish-Outcome :
      (r : Result (Ending Progress)) (c : C)
      → Border (committed c)
      → ((p : Progress)
          → r ≡ ok (return_early p)
          → p.done ≡ true
          → Images transform ignored originals (committed c).rows)
      → ((q : Progress)
          → r ≡ ok (commit_and_return q)
          → Border (pending c)
            × (q.done ≡ true → Images transform ignored originals (pending c).rows))
      → Outcome (finish S (r, c))
  finish-Outcome (err x) c old early late =
      let kept = L.rollback_keeps c in (rw kept old, λ p h d. absurd (cc))
  finish-Outcome (ok (return_early q)) c old early late =
      let kept = L.rollback_keeps c in
      (rw kept old, λ p h d. rw kept (early q refl (rw (progress_injective h) d)))
  finish-Outcome (ok (commit_and_return q)) c old early late =
      let (new, all) = late q refl in commit-Outcome q c old new all (S.commit c).0 refl

  after_load_done :
      (p : Progress) (c : C)
      → p.done ≡ true
      → after_load S t transform F k p c ≡ (ok (return_early p), c)
  unfolding after_load
  after_load_done p c d = ground arith

  after_load_open :
      (p : Progress) (c : C)
      → p.done ≡ false
      → after_load S t transform F k p c ≡ page_from S t transform F k p c
  unfolding after_load
  after_load_open p c d = ground arith

  page_from_early :
      (p q : Progress) (c : C)
      → Border (pending c)
      → loaded F k (pending c).saved ≡ ok p
      → (page_from S t transform F k p c).0 ≢ ok (return_early q)
  page_from_early p q c b loads h =
      let (r, e, new, all) = page_from-IsBorder p c (return_early q) b loads h in absurd (cc)

  page_from_late :
      (p q : Progress) (c : C)
      → Border (pending c)
      → loaded F k (pending c).saved ≡ ok p
      → (page_from S t transform F k p c).0 ≡ ok (commit_and_return q)
      → let v = pending (page_from S t transform F k p c).1 in
        Border v × (q.done ≡ true → Images transform ignored originals v.rows)
  page_from_late p q c b loads h =
      let (r, e, new, all) = page_from-IsBorder p c (commit_and_return q) b loads h in
      let same : q ≡ r = cc in (new, λ d. all (rw same at d))

  -- The body of the transaction, after the load.
  body-Outcome :
      (p : Progress) (c : C)
      → Border (committed c)
      → Border (pending c)
      → loaded F k (pending c).saved ≡ ok p
      → pending c ≡ committed c
      → Outcome (finish S (after_load S t transform F k p c))
  body-Outcome p c old b loads same = elim (Bool-cases p.done) [
    | inl d ↦ rw (after_load_done p c d) (
        finish-Outcome (ok (return_early p)) c old
          (λ q h d'. IsBorder-done F k transform ignored originals p old (rw same at loads) d)
          (λ q h. absurd (cc)))
    | inr d ↦ rw (after_load_open p c d) (
        finish-Outcome (page_from S t transform F k p c).0 (page_from S t transform F k p c).1
          (rw (page_from_keeps L F transform p c) old)
          (λ q h d'. absurd (page_from_early p q c b loads h))
          (λ q h. page_from_late p q c b loads h))
  ]

  page_tx_no_begin :
      (c : C) (x : Err)
      → (S.begin_tx c).0 ≡ err x
      → page_tx S t transform F k c ≡ (err x, (S.begin_tx c).1)
  unfolding page_tx in_tx
  page_tx_no_begin c x h = ground arith

  page_tx_no_load :
      (c : C) (x : Err)
      → (S.begin_tx c).0 ≡ ok tt
      → (load F S k (S.begin_tx c).1).0 ≡ err x
      → page_tx S t transform F k c ≡ (err x, S.rollback (load F S k (S.begin_tx c).1).1)
  unfolding page_tx in_tx
  page_tx_no_load c x h e = ground arith

  page_tx_loaded :
      (c : C) (p : Progress)
      → (S.begin_tx c).0 ≡ ok tt
      → (load F S k (S.begin_tx c).1).0 ≡ ok p
      → page_tx S t transform F k c
        ≡ finish S (after_load S t transform F k p (load F S k (S.begin_tx c).1).1)
  unfolding page_tx in_tx
  page_tx_loaded c p h e = ground arith

  pub page_tx-Outcome : (c : C) → Border (committed c) → Outcome (page_tx S t transform F k c)
  page_tx-Outcome c b =
      let c1 = (S.begin_tx c).1 in
      let b1 : Border (committed c1) = rw (L.begin_keeps c) b in
      elim (Result-cases (S.begin_tx c).0) [
        | inr (x, e) ↦ rw (page_tx_no_begin c x e) (b1, λ p h d. absurd (cc))
        | inl (u, e) ↦
            let c2 = (load F S k c1).1 in
            let (kept, view) = load_keeps L F c1 in
            let b2 : Border (committed c2) = rw kept b1 in
            elim (Result-cases (load F S k c1).0) [
              | inr (x, l) ↦
                  rw (page_tx_no_load c x e l, L.rollback_keeps c2) (b2, λ p h d. absurd (cc))
              | inl (p, l) ↦
                  let same : pending c2 ≡ committed c2 =
                    view ∙ L.begin_opens c e ∙ sym (L.begin_keeps c) ∙ sym kept in
                  rw (page_tx_loaded c p e l)
                    (body-Outcome p c2 b2 (rw same b2) (rw view (load_reads L F c1 p l)) same)
            ]
      ]
