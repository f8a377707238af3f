-- ===== src/Pager/ExactlyOnce.antt =====
-- Sequences of pages, with their failures and retries.
use pxc_anonymizer.Prelude.{
  ◌≡◌, refl, ◌⊎◌, Bool, true, none, List, [], ◌++◌, length, arith, All, Bool-cases, inl, inr,
}
use pxc_anonymizer.Errors.{Err, plain, Result, ok, err, Result-cases}
use pxc_anonymizer.Sql.{Value, Server}
use pxc_anonymizer.Checkpoint.{Key, Progress, loaded}
use pxc_anonymizer.Checkpoint.Cursor.{Formats}
use pxc_anonymizer.Checkpoint.RoundTrip.{IsLossless, IsKeyValue}
use pxc_anonymizer.Pager.{Row, with_page_size, is_wrong_identity, validate, page_tx, process_page}
use pxc_anonymizer.Pager.Statements.{Table}
use pxc_anonymizer.Pager.Storage.{Entry, View, IsStorage}
use pxc_anonymizer.Pager.Updates.{Images}
use pxc_anonymizer.Pager.Rows.{IsKeyed}
use pxc_anonymizer.Pager.Border.{IsBorder}
use pxc_anonymizer.Pager.Resume.{page_tx-Outcome}

-- What can happen to a table during a run: `ProcessPage` is called on it, and the server does other
-- work that changes neither its rows nor its checkpoint row. A crash in the middle of `ProcessPage`
-- is a call in which every later request fails.
pub data Pages {C : Type 0} (S : Server C) (F : Formats) (t : Table) (k : Key)
    (transform : Row → Result (List Value)) (committed : C → View) (c : C) : C → Type 0 where
  start : Pages S F t k transform committed c c
  page :
      {d : C}
      → Pages S F t k transform committed c d
      → Pages S F t k transform committed c (process_page S F t k transform d).1
  elsewhere :
      {d : C} (d' : C)
      → Pages S F t k transform committed c d
      → committed d' ≡ committed d
      → Pages S F t k transform committed c d'

-- `ProcessPage` refuses its arguments and does nothing, or is its transaction.
process_page-cases :
    {C : Type 0} (S : Server C) (F : Formats) (t : Table) (k : Key)
    (transform : Row → Result (List Value)) (c : C)
    → (process_page S F t k transform c ≡ page_tx S (with_page_size t) transform F k c)
      ⊎ ((x : Err) × (process_page S F t k transform c ≡ (err x, c)))
unfolding process_page
process_page-cases S F t k transform c = elim (Result-cases (validate t)) [
  | inr (x, e) ↦ inr (x, ground arith)
  | inl (u, e) ↦ elim (Bool-cases (is_wrong_identity t k)) [
    | inl wrong ↦ inr (plain "page identity or transform is invalid", ground arith)
    | inr right ↦ inl (ground arith)
  ]
]

fresh-IsBorder :
    (F : Formats) (k : Key) (transform : Row → Result (List Value)) (ignored : Entry → Bool)
    (originals : List Entry) (v : View)
    → v.rows ≡ originals
    → v.saved ≡ none
    → IsBorder F k transform ignored originals v
unfolding loaded
fresh-IsBorder F k transform ignored originals v rows saved = record {
  gone = [];
  written = [];
  left = originals;
  original = refl;
  split = rows;
  images = tt;
  resumes = λ p h. ground arith;
}

module _ {C : Type 0} {S : Server C} (t : Table) {k : Key} {ignored : Entry → Bool}
    {committed pending : C → View} (L : IsStorage S (with_page_size t) k ignored committed pending)
    (F : Formats) (lossless : IsLossless F) (transform : Row → Result (List Value))
    (originals : List Entry)
    (shaped : All (IsKeyed (length (with_page_size t).primary_key)) originals)
    (keyed : All (λ e. All (IsKeyValue F) e.pk) originals) where
  process_page-Outcome :
      (c : C)
      → IsBorder F k transform ignored originals (committed c)
      → let r = process_page S F t k transform c in
        IsBorder F k transform ignored originals (committed r.1)
        × ((p : Progress)
            → r.0 ≡ ok p
            → p.done ≡ true
            → Images transform ignored originals (committed r.1).rows)
  process_page-Outcome c b = elim (process_page-cases S F t k transform c) [
    | inl e ↦ rw e (page_tx-Outcome L F lossless transform originals shaped keyed c b)
    | inr (x, e) ↦ rw e (b, λ p h d. absurd (cc))
  ]

  Pages-IsBorder :
      {c d : C}
      → IsBorder F k transform ignored originals (committed c)
      → Pages S F t k transform committed c d
      → IsBorder F k transform ignored originals (committed d)
  Pages-IsBorder b start = b
  Pages-IsBorder b (page {d} r) = (process_page-Outcome d (Pages-IsBorder b r)).0
  Pages-IsBorder b (elsewhere {d} d' r same) = rw same (Pages-IsBorder b r)

  -- From a table with its original rows and no checkpoint row, after any sequence of pages with any
  -- failures that the server's laws allow, the committed table is split by a border: the rows
  -- before it are, one for one, the images of the original rows (an ignored row unchanged, any
  -- other the transform of the original row), and the rows after it are the original ones.
  pub Pages-exactly_once :
      {c d : C}
      → (committed c).rows ≡ originals
      → (committed c).saved ≡ none
      → Pages S F t k transform committed c d
      → (gone : List Entry) × (written : List Entry) × (left : List Entry) × (originals
          ≡ gone ++ left)
        × ((committed d).rows ≡ written ++ left)
        × Images transform ignored gone written
  Pages-exactly_once {c} rows saved r =
      let b =
        Pages-IsBorder (fresh-IsBorder F k transform ignored originals (committed c) rows saved)
          r in
      (b.gone, b.written, b.left, b.original, b.split, b.images)

  -- When a page in such a sequence reports that the table is done, the committed table holds the
  -- images of all the original rows, in order, with none left out, added or transformed twice.
  pub done_complete :
      {c d : C} (p : Progress)
      → (committed c).rows ≡ originals
      → (committed c).saved ≡ none
      → Pages S F t k transform committed c d
      → (process_page S F t k transform d).0 ≡ ok p
      → p.done ≡ true
      → Images transform ignored originals (committed (process_page S F t k transform d).1).rows
  done_complete {c} {d} p rows saved r h finished =
      (process_page-Outcome d (
          Pages-IsBorder (fresh-IsBorder F k transform ignored originals (committed c) rows saved)
            r)).1
        p h finished
