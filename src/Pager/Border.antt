-- ===== src/Pager/Border.antt =====
-- The border in a table between the rows that pages have gone through and those that are left, and
-- how a page with its checkpoint moves it.
use mathlib.Core.List.{append_assoc}
use pxc_anonymizer.Prelude.{
  ℕ, ◌<◌, ◌≡◌, ◌≢◌, refl, sym, ap, ◌∙◌, Bool, true, Option, none, some, List, [], ◌∷◌, ◌++◌, take,
  length, length-map, arith, All, Bool-cases, List-cases, inl, inr,
}
use pxc_anonymizer.Errors.{Result, ok, ok_injective}
use pxc_anonymizer.Sql.{Value, SavedRow}
use pxc_anonymizer.Checkpoint.{Key, Progress, loaded}
use pxc_anonymizer.Checkpoint.Cursor.{Formats, encode, decode}
use pxc_anonymizer.Checkpoint.RoundTrip.{IsLossless, IsKeyValue, decode-encode}
use pxc_anonymizer.SqlStep.Durability.{upsert}
use pxc_anonymizer.Pager.{Row, last_key}
use pxc_anonymizer.Pager.Storage.{Entry, View, selected, end_of}
use pxc_anonymizer.Pager.Updates.{Image, Images}
use pxc_anonymizer.Pager.Rows.{page_rows, Advance}

end_of-append :
    (cursor : List Value) (xs ys : List Entry)
    → end_of cursor (xs ++ ys) ≡ end_of (end_of cursor xs) ys
end_of-append cursor [] ys = refl
end_of-append cursor (x ∷ xs) ys = end_of-append x.pk xs ys

-- A row with a cursor loads as the key that the cursor encodes.
loaded-some :
    (F : Formats) (k : Key) (r : SavedRow) (p : Progress) (pk : List Value)
    → r.cursor ≢ []
    → decode F r.cursor ≡ ok pk
    → loaded F k (some r) ≡ ok p
    → (p.last_pk ≡ pk) × (p.done ≡ r.done)
unfolding loaded
loaded-some F k r p pk nonempty d h = elim (List-cases r.cursor) [
  | inl e ↦ absurd (nonempty e)
  | inr (x, xs, e) ↦ ground arith
]

upsert_fields :
    (o : Option SavedRow) (k : Key) (cursor : List ℕ) (p : Progress)
    → ((upsert o k cursor p).cursor ≡ cursor) × ((upsert o k cursor p).done ≡ p.done)
upsert_fields none k cursor p = (refl, refl)
upsert_fields (some r) k cursor p = (refl, refl)

module _ (transform : Row → Result (List Value)) (ignored : Entry → Bool) where
  Images-append :
      (ws xs ys zs : List Entry)
      → Images transform ignored ws xs
      → Images transform ignored ys zs
      → Images transform ignored (ws ++ ys) (xs ++ zs)
  Images-append [] [] ys zs h k = k
  Images-append [] (x ∷ xs) ys zs h k = absurd h
  Images-append (w ∷ ws) [] ys zs h k = absurd h
  Images-append (w ∷ ws) (x ∷ xs) ys zs h k = (h.0, Images-append ws xs ys zs h.1 k)

  -- Rows of which none is selected are their own images.
  Images-ignored : (es : List Entry) → selected ignored es ≡ [] → Images transform ignored es es
  Images-ignored [] h = tt
  Images-ignored (e ∷ es) h = elim (Bool-cases (ignored e)) [
    | inl skip ↦ (Image.skipped skip, Images-ignored es (rw skip at h))
    | inr keep ↦ absurd (no_rows (rw keep at h))
  ]
    where
      no_rows : e ∷ selected ignored es ≡ [] → ⊥
      no_rows z = cc

  Image-pk : {d e : Entry} → Image transform ignored d e → e.pk ≡ d.pk
  Image-pk (Image.skipped h) = refl
  Image-pk (Image.replaced a vs keep lt tr) = refl

  -- What holds of every key holds of the keys of the images.
  Images-All :
      (P : List Value → Type 0) (ds es : List Entry)
      → Images transform ignored ds es
      → All (λ d. P d.pk) ds
      → All (λ e. P e.pk) es
  Images-All P [] [] h k = tt
  Images-All P [] (e ∷ es) h k = absurd h
  Images-All P (d ∷ ds) [] h k = absurd h
  Images-All P (d ∷ ds) (e ∷ es) h k = (rw (Image-pk h.0) k.0, Images-All P ds es h.1 k.1)

All-end_of :
    (P : List Value → Type 0) (cursor : List Value) (es : List Entry)
    → P cursor
    → All (λ e. P e.pk) es
    → P (end_of cursor es)
All-end_of P cursor [] h k = h
All-end_of P cursor (e ∷ es) h k = All-end_of P e.pk es k.0 k.1

pub All-split : (P : Entry → Type 0) (xs ys : List Entry) → All P (xs ++ ys) → All P xs × All P ys
All-split P [] ys h = (tt, h)
All-split P (x ∷ xs) ys h = let (l, r) = All-split P xs ys h.1 in ((h.0, l), r)

module _ (F : Formats) (k : Key) (transform : Row → Result (List Value)) (ignored : Entry → Bool)
    (originals : List Entry) where
  -- The rows before the border are the images of the original ones, in order; the rows after it are
  -- the original ones. A checkpoint row that loads has its cursor at the border, and says `done`
  -- only if nothing is selected after it.
  pub record IsBorder (v : View) : Type 0 where
    pub gone : List Entry
    pub written : List Entry
    pub left : List Entry
    pub original : originals ≡ gone ++ left
    pub split : v.rows ≡ written ++ left
    pub images : Images transform ignored gone written
    pub resumes :
        (p : Progress)
        → loaded F k v.saved ≡ ok p
        → (p.last_pk ≡ end_of [] written) × (p.done ≡ true → selected ignored left ≡ [])

  -- A table that says `done` has the images of all its original rows.
  pub IsBorder-done :
      {v : View} (p : Progress)
      → IsBorder v
      → loaded F k v.saved ≡ ok p
      → p.done ≡ true
      → Images transform ignored originals v.rows
  IsBorder-done p b h d =
      rw (b.original, b.split)
        (Images-append transform ignored b.gone b.written b.left b.left b.images
          (Images-ignored transform ignored b.left ((b.resumes p h).1 d)))

  -- A page that was not full leaves the images of all rows.
  pub IsBorder-exhausted :
      (keys n : ℕ) (before after : View) (b : IsBorder before)
      → Advance transform ignored keys b.written b.left n before after
      → length (take n (selected ignored b.left)) < n
      → Images transform ignored originals after.rows
  IsBorder-exhausted keys n before after b a short =
      rw (b.original, ap (λ (v : View). v.rows) a.result, a.split)
        (Images-append transform ignored b.gone b.written _ _ b.images (
          Images-append transform ignored a.gone a.written a.left a.left a.images
            (Images-ignored transform ignored a.left (a.exhausted short))))

  module _ (L : IsLossless F) (keys : ℕ)
      (keyed : All (λ e. All (IsKeyValue F) e.pk) originals) where
    -- A page and its checkpoint move the border.
    pub IsBorder-Advance :
        (n : ℕ) (rows : List Row) (before after : View) (p p' : Progress) (cursor : List ℕ)
        (b : IsBorder before)
        → loaded F k before.saved ≡ ok p
        → rows ≡ page_rows keys (take n (selected ignored b.left))
        → Advance transform ignored keys b.written b.left n before after
        → p'.last_pk ≡ last_key p.last_pk rows
        → (p'.done ≡ true → length rows < n)
        → encode F p'.last_pk ≡ ok cursor
        → IsBorder (record after { saved = some (upsert after.saved k cursor p') })
    IsBorder-Advance n rows before after p p' cursor b loads page a ends full encoded = record {
      gone = b.gone ++ a.gone;
      written = b.written ++ a.written;
      left = a.left;
      original = original';
      split = ap (λ (v : View). v.rows) a.result ∙ sym (append_assoc b.written a.written a.left);
      images = images';
      resumes = resumes';
    }
      where
        images' : Images transform ignored (b.gone ++ a.gone) (b.written ++ a.written)
        images' =
            Images-append transform ignored b.gone b.written a.gone a.written b.images a.images

        original' : originals ≡ (b.gone ++ a.gone) ++ a.left
        original' =
            b.original ∙ ap (λ es. b.gone ++ es) a.split ∙ sym (append_assoc b.gone a.gone a.left)

        end : p'.last_pk ≡ end_of [] (b.written ++ a.written)
        end =
            rw (ends, page, (b.resumes p loads).0, end_of-append []) (a.ends (end_of [] b.written))

        keyed' : All (IsKeyValue F) p'.last_pk
        keyed' = rw end (
            All-end_of (All (IsKeyValue F)) [] (b.written ++ a.written) tt (
              Images-All transform ignored (All (IsKeyValue F)) (b.gone ++ a.gone)
                (b.written ++ a.written) images'
                (All-split (λ e. All (IsKeyValue F) e.pk) (b.gone ++ a.gone) a.left
                  (rw original' at keyed)).0))

        row : SavedRow
        row = upsert after.saved k cursor p'

        decoded : (row.cursor ≢ []) × (decode F row.cursor ≡ ok p'.last_pk)
        decoded =
            let (written, e, nonempty, d) = decode-encode F L p'.last_pk keyed' in
            let same : row.cursor ≡ written =
              (upsert_fields after.saved k cursor p').0 ∙ ok_injective (sym encoded ∙ e) in
            (rw same nonempty, rw same d)

        resumes' :
            (q : Progress)
            → loaded F k (some row) ≡ ok q
            → (q.last_pk ≡ end_of [] (b.written ++ a.written))
              × (q.done ≡ true → selected ignored a.left ≡ [])
        resumes' q loads' =
            let (pk, done) = loaded-some F k row q p'.last_pk decoded.0 decoded.1 loads' in
            (
              pk ∙ end,
              λ d. a.exhausted (
                  rw (page, length-map, length-map) at
                    (full (sym (upsert_fields after.saved k cursor p').1 ∙ sym done ∙ d))),
            )
