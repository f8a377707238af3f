-- ===== src/Pager/Rows.antt =====
-- The updates of a page, one row after the other, and what they leave in the transaction.
use mathlib.Core.List.{append_assoc}
use pxc_anonymizer.Prelude.{
  ℕ, zero, suc, ◌<◌, ◌≡◌, refl, sym, ap, ◌∙◌, Bool, true, false, List, [], ◌∷◌, ◌++◌, map, take,
  drop, length, arith, All, Bool-cases, List-cases, inl, inr,
}
use pxc_anonymizer.Errors.{Result, ok}
use pxc_anonymizer.Sql.{Value, Server}
use pxc_anonymizer.Checkpoint.{Key}
use pxc_anonymizer.Pager.{
  Row, row_of, last_key, update_row, update_rows, update_page, max_unique_attempts,
}
use pxc_anonymizer.Pager.Statements.{Table, update_sql}
use pxc_anonymizer.Pager.Storage.{Entry, View, IsStorage, selected, end_of, columns_of}
use pxc_anonymizer.Pager.Updates.{entry_row, Image, Images, update_row_keeps, update_row_writes}

-- An entry whose key has the table's shape.
abbrev pub IsKeyed : ℕ → Entry → Type 0
IsKeyed keys e = length e.pk ≡ keys

take-length-append : (xs ys : List Value) → take (length xs) (xs ++ ys) ≡ xs
take-length-append [] ys = refl
take-length-append (x ∷ xs) ys = rw (take-length-append xs ys)

drop-length-append : (xs ys : List Value) → drop (length xs) (xs ++ ys) ≡ ys
drop-length-append [] ys = refl
drop-length-append (x ∷ xs) ys = drop-length-append xs ys

row_of-columns_of :
    (keys : ℕ) (e : Entry) → IsKeyed keys e → row_of keys (columns_of e) ≡ entry_row e 0
row_of-columns_of keys e h =
    rw (← h) (rw (take-length-append e.pk e.values, drop-length-append e.pk e.values))

-- The rows that the pager makes of the selected entries.
abbrev pub page_rows : ℕ → List Entry → List Row
page_rows keys es = map (row_of keys) (map columns_of es)

take_short : (n : ℕ) (es : List Entry) → take n es ≡ [] → length (take n es) < n → es ≡ []
take_short zero es h lt = absurd (omega arith)
take_short (suc n) [] h lt = refl
take_short (suc n) (e ∷ es) h lt = cc

module _ (transform : Row → Result (List Value)) (ignored : Entry → Bool) (keys : ℕ) where
  -- What a successful run of updates leaves: the rows from the front on fall into a part that the
  -- page went through, whose images are written and whose last key is the last row's, and a
  -- part that it left, in which nothing is selected if the page was not full.
  pub record Advance (front rest : List Entry) (n : ℕ) (before after : View) : Type 0 where
    pub gone : List Entry
    pub written : List Entry
    pub left : List Entry
    pub split : rest ≡ gone ++ left
    pub images : Images transform ignored gone written
    pub result : after ≡ record before { rows = front ++ (written ++ left) }
    pub ends :
        (cursor : List Value)
        → last_key cursor (page_rows keys (take n (selected ignored rest))) ≡ end_of cursor written
    pub exhausted : length (take n (selected ignored rest)) < n → selected ignored left ≡ []

  -- Nothing selected: the page ends here.
  Advance-stay :
      (front rest : List Entry) (n : ℕ) (v : View)
      → v.rows ≡ front ++ rest
      → take n (selected ignored rest) ≡ []
      → Advance front rest n v v
  Advance-stay front rest n v split none_left = record {
    gone = [];
    written = [];
    left = rest;
    split = refl;
    images = tt;
    result = ground arith;
    ends = λ cursor. rw none_left;
    exhausted = take_short n (selected ignored rest) none_left;
  }

  -- An ignored row before a page that is not empty is gone through unchanged.
  Advance-skip :
      (front rest : List Entry) (n : ℕ) (e f : Entry) (fs : List Entry) (before after : View)
      → ignored e ≡ true
      → take n (selected ignored rest) ≡ f ∷ fs
      → Advance (front ++ (e ∷ [])) rest n before after
      → Advance front (e ∷ rest) n before after
  Advance-skip front rest n e f fs before after skip page a = record {
    gone = e ∷ a.gone;
    written = e ∷ a.written;
    left = a.left;
    split = ap (λ es. e ∷ es) a.split;
    images = (Image.skipped skip, a.images);
    result = a.result ∙ rw append_assoc;
    ends = λ cursor. rw skip (rw page (rw page at (a.ends e.pk)));
    exhausted = rw skip a.exhausted;
  }

  -- A row that is written, and the rest of the page after it.
  Advance-replace :
      (front rest : List Entry) (n : ℕ) (e e' : Entry) (before middle after : View)
      → ignored e ≡ false
      → IsKeyed keys e
      → e'.pk ≡ e.pk
      → Image transform ignored e e'
      → middle ≡ record before { rows = front ++ (e' ∷ rest) }
      → Advance (front ++ (e' ∷ [])) rest n middle after
      → Advance front (e ∷ rest) (suc n) before after
  Advance-replace front rest n e e' before middle after keep keyed same image written a = record {
    gone = e ∷ a.gone;
    written = e' ∷ a.written;
    left = a.left;
    split = ap (λ es. e ∷ es) a.split;
    images = (image, a.images);
    result = rw (a.result, written, append_assoc);
    ends = λ cursor.
        rw keep (
          rw (ap (λ (r : Row). r.primary_key) (row_of-columns_of keys e keyed), same)
            (a.ends e.pk));
    exhausted = rw keep (λ h. a.exhausted (omega arith));
  }

module _ {C : Type 0} {S : Server C} {t : Table} {k : Key} {ignored : Entry → Bool}
    {committed pending : C → View} (L : IsStorage S t k ignored committed pending)
    (transform : Row → Result (List Value)) (keys : ℕ) where
  -- A page succeeds if its first row does and then the others do.
  update_rows_first :
      (row : Row) (rows : List Row) (c : C)
      → (update_rows S t transform (row ∷ rows) c).0 ≡ ok tt
      → let one = update_row S t transform max_unique_attempts 0 row c in
        (one.0 ≡ ok tt)
        × (update_rows S t transform (row ∷ rows) c ≡ update_rows S t transform rows one.1)
  unfolding update_rows
  update_rows_first row rows c h = ground arith

  -- The updates of a page that was selected from the rest of the table.
  pub update_rows-Advance :
      (n : ℕ) (rest front : List Entry) (rows : List Row) (c : C)
      → All (IsKeyed keys) rest
      → (pending c).rows ≡ front ++ rest
      → rows ≡ page_rows keys (take n (selected ignored rest))
      → (update_rows S t transform rows c).0 ≡ ok tt
      → Advance transform ignored keys front rest n
          (pending c)
          (pending (update_rows S t transform rows c).1)
  unfolding update_rows
  update_rows-Advance zero rest front rows c keyed split page h =
      rw page (Advance-stay transform ignored keys front rest zero (pending c) split refl)
  update_rows-Advance (suc n) [] front rows c keyed split page h =
      rw page (Advance-stay transform ignored keys front [] (suc n) (pending c) split refl)
  update_rows-Advance (suc n) (e ∷ es) front rows c keyed split page h =
      elim (Bool-cases (ignored e)) [
        | inl skip ↦ elim (List-cases (take (suc n) (selected ignored es))) [
          | inl none_left ↦ rw (rw (skip, none_left) at page) (
              Advance-stay transform ignored keys front (e ∷ es) (suc n) (pending c) split
                (rw skip none_left))
          | inr (f, fs, some_left) ↦
              Advance-skip transform ignored keys front es (suc n) e f fs _ _ skip some_left (
                update_rows-Advance (suc n) es (front ++ (e ∷ [])) rows c keyed.1
                  (split ∙ sym (append_assoc front (e ∷ []) es)) (rw skip at page) h)
        ]
        | inr keep ↦
            let ps = page_rows keys (take n (selected ignored es)) in
            let page' : rows ≡ entry_row e 0 ∷ ps =
              rw (row_of-columns_of keys e keyed.0) at (rw keep at page) in
            let (first_ok, same) = update_rows_first (entry_row e 0) ps c (rw page' at h) in
            let c1 = (update_row S t transform max_unique_attempts 0 (entry_row e 0) c).1 in
            let (a, values, lt, tr, written) =
              update_row_writes L transform max_unique_attempts 0 front es e c (omega arith) split
                first_ok in
            let e' : Entry = record e { values = values } in
            rw (page', same)
              (Advance-replace transform ignored keys front es n e e' (pending c) (pending c1) _
                keep keyed.0 refl (Image.replaced a values keep lt tr) written
                (update_rows-Advance n es (front ++ (e' ∷ [])) ps c1 keyed.1
                  (ap (λ (v : View). v.rows) written ∙ sym (append_assoc front (e' ∷ []) es)) refl
                  (rw (page', same) at h)))
      ]

  pub update_rows_keeps :
      (rows : List Row) (c : C) → committed (update_rows S t transform rows c).1 ≡ committed c
  unfolding update_rows
  update_rows_keeps [] c = refl
  update_rows_keeps (row ∷ rows) c =
      let c1 = (update_row S t transform max_unique_attempts 0 row c).1 in
      ground
        (arith, update_row_keeps L transform max_unique_attempts 0 row c, update_rows_keeps rows c1)

  update_page_prepared :
      (row : Row) (rows : List Row) (c : C)
      → (update_page S t transform (row ∷ rows) c).0 ≡ ok tt
      → update_page S t transform (row ∷ rows) c
        ≡ update_rows S t transform (row ∷ rows) (S.prepare c (update_sql t)).1
  unfolding update_page
  update_page_prepared row rows c h = ground arith

  -- The same with the statement prepared first.
  pub update_page-Advance :
      (n : ℕ) (rest front : List Entry) (rows : List Row) (c : C)
      → All (IsKeyed keys) rest
      → (pending c).rows ≡ front ++ rest
      → rows ≡ page_rows keys (take n (selected ignored rest))
      → (update_page S t transform rows c).0 ≡ ok tt
      → Advance transform ignored keys front rest n
          (pending c)
          (pending (update_page S t transform rows c).1)
  unfolding update_page
  update_page-Advance n rest front [] c keyed split page h =
      unfold update_rows in update_rows-Advance n rest front [] c keyed split page refl
  update_page-Advance n rest front (row ∷ rows) c keyed split page h =
      let c1 = (S.prepare c (update_sql t)).1 in
      let same = (L.prepare_keeps c).1 in
      let prepared = update_page_prepared row rows c h in
      rw (prepared, ← same)
        (update_rows-Advance n rest front (row ∷ rows) c1 keyed (rw same split) page
          (rw prepared at h))

  pub update_page_keeps :
      (rows : List Row) (c : C) → committed (update_page S t transform rows c).1 ≡ committed c
  unfolding update_page
  update_page_keeps [] c = refl
  update_page_keeps (row ∷ rows) c =
      let c1 = (S.prepare c (update_sql t)).1 in
      ground (arith, L.prepare_keeps c, update_rows_keeps (row ∷ rows) c1)
