-- ===== src/Pager/Updates.antt =====
-- The update of one row, and what it leaves in the transaction.
use pxc_anonymizer.Prelude.{
  ℕ, zero, suc, ◌+◌, ◌%◌, ◌<◌, ◌≤◌, ◌≡◌, refl, Bool, true, false, some, List, [], ◌∷◌, ◌++◌, arith,
  ◌⊎◌, inl, inr, nat_eq,
}
use pxc_anonymizer.Errors.{Err, as_mysql, Result, ok, err, Result-cases}
use pxc_anonymizer.Sql.{Value, Server}
use pxc_anonymizer.Checkpoint.{Key}
use pxc_anonymizer.Pager.{Row, write, update_row, max_unique_attempts}
use pxc_anonymizer.Pager.Statements.{Table}
use pxc_anonymizer.Pager.Storage.{Entry, View, IsStorage}

-- The row that the pager reads of an entry.
abbrev pub entry_row : Entry → ℕ → Row
entry_row e attempt = record { primary_key = e.pk; values = e.values; retry = attempt }

module _ (transform : Row → Result (List Value)) (ignored : Entry → Bool) where
  -- What becomes of one row: an ignored row stays, any other gets the transform's values at one of
  -- the eight attempts, and keeps its key.
  pub data Image (e : Entry) : Entry → Type 0 where
    skipped : ignored e ≡ true → Image e e
    replaced :
        (attempt : ℕ) (values : List Value)
        → ignored e ≡ false
        → attempt < max_unique_attempts
        → transform (entry_row e attempt) ≡ ok values
        → Image e (record e { values = values })

  -- Row by row, in order, with none left out or added.
  abbrev pub Images : List Entry → List Entry → Type 0
  Images [] [] = Unit
  Images [] (e ∷ es) = ⊥
  Images (d ∷ ds) [] = ⊥
  Images (d ∷ ds) (e ∷ es) = Image d e × Images ds es

module _ {C : Type 0} {S : Server C} {t : Table} {k : Key} {ignored : Entry → Bool}
    {committed pending : C → View} (L : IsStorage S t k ignored committed pending)
    (transform : Row → Result (List Value)) where
  write_keeps :
      (row : Row) (values : List Value) (c : C)
      → committed (write S t transform row values c).1 ≡ committed c
  write_keeps row values c = ground (arith, L.update_keeps c (values ++ row.primary_key))

  pub update_row_keeps :
      (left attempt : ℕ) (row : Row) (c : C)
      → committed (update_row S t transform left attempt row c).1 ≡ committed c
  unfolding update_row
  update_row_keeps zero attempt row c = refl
  update_row_keeps (suc left) attempt row c =
      elim (Result-cases (transform (record row { retry = attempt % 256 }))) [
        | inl (values, q) ↦
            let c1 = (write S t transform row values c).1 in
            ground (arith, write_keeps row values c, update_row_keeps left (suc attempt) row c1)
        | inr (x, q) ↦ ground arith
      ]

  write_writes :
      (front rest : List Entry) (e : Entry) (attempt : ℕ) (values : List Value) (c : C)
      → (pending c).rows ≡ front ++ (e ∷ rest)
      → (write S t transform (entry_row e attempt) values c).0 ≡ ok tt
      → pending (write S t transform (entry_row e attempt) values c).1
        ≡ record (pending c) { rows = front ++ (record e { values = values } ∷ rest) }
  write_writes front rest e attempt values c split h =
      ground (arith, L.update_writes c front rest e values split)

  write_duplicate :
      (row : Row) (values : List Value) (x : Err) (c : C)
      → (write S t transform row values c).0 ≡ err x
      → as_mysql x ≡ some 1062
      → pending (write S t transform row values c).1 ≡ pending c
  unfolding as_mysql
  write_duplicate row values x c h d =
      ground (arith, L.update_duplicate c (values ++ row.primary_key) x)

  -- One attempt of `updateRow`: it succeeds, or it fails for good, or it is made again.
  update_row_step :
      (left attempt : ℕ) (row : Row) (values : List Value) (c : C)
      → transform (record row { retry = attempt % 256 }) ≡ ok values
      → (update_row S t transform (suc left) attempt row c).0 ≡ ok tt
      → let w = write S t transform (record row { retry = attempt % 256 }) values c in
        ((w.0 ≡ ok tt) × ((update_row S t transform (suc left) attempt row c).1 ≡ w.1))
        ⊎ ((x : Err) × (w.0 ≡ err x)
            × (as_mysql x ≡ some 1062)
            × (update_row S t transform (suc left) attempt row c
                ≡ update_row S t transform left (suc attempt) row w.1))
  unfolding update_row
  update_row_step left attempt row values c q h = elim (Result-cases w.0) [
    | inl (u, z) ↦ inl (z, ground arith)
    | inr (x, z) ↦ inr (x, z, ground arith, ground arith)
  ]
    where
      w : Result (Unit {0}) × C
      w = write S t transform row values c

  update_row_transforms :
      (left attempt : ℕ) (row : Row) (c : C)
      → (update_row S t transform (suc left) attempt row c).0 ≡ ok tt
      → (values : List Value) × (transform (record row { retry = attempt % 256 }) ≡ ok values)
  unfolding update_row
  update_row_transforms left attempt row c h =
      elim (Result-cases (transform (record row { retry = attempt % 256 }))) [
        | inl (values, q) ↦ (values, q)
        | inr (x, q) ↦ absurd (ground arith)
      ]

  -- A successful `updateRow` has written the transform's values at one attempt below eight.
  pub update_row_writes :
      (left attempt : ℕ) (front rest : List Entry) (e : Entry) (c : C)
      → attempt + left ≤ max_unique_attempts
      → (pending c).rows ≡ front ++ (e ∷ rest)
      → (update_row S t transform left attempt (entry_row e 0) c).0 ≡ ok tt
      → (a : ℕ) × (values : List Value) × (a < max_unique_attempts)
        × (transform (entry_row e a) ≡ ok values)
        × (pending (update_row S t transform left attempt (entry_row e 0) c).1
            ≡ record (pending c) { rows = front ++ (record e { values = values } ∷ rest) })
  update_row_writes zero attempt front rest e c b split h = unfold update_row in absurd (cc)
  update_row_writes (suc left) attempt front rest e c b split h =
      let (values, q) = update_row_transforms left attempt (entry_row e 0) c h in
      elim (update_row_step left attempt (entry_row e 0) values c q h) [
        | inl (z, same) ↦ (
          attempt % 256,
          values,
          omega arith,
          q,
          rw same (write_writes front rest e (attempt % 256) values c split z),
        )
        | inr (x, z, d, again) ↦
            let c1 = (write S t transform (entry_row e (attempt % 256)) values c).1 in
            let same = write_duplicate (entry_row e (attempt % 256)) values x c z d in
            let (a, vs, lt, tr, written) =
              update_row_writes left (suc attempt) front rest e c1 (omega arith) (rw same split)
                (rw again at h) in
            (a, vs, lt, tr, rw again (rw same at written))
      ]
