-- ===== src/SqlStep/Truncate.antt =====
-- Truncation of a table with its foreign-key checks off (`Truncate` of
-- internal/runner/sqlstep/sqlstep.go).
use pxc_anonymizer.Prelude.{String, ◌<>◌, ◌≡◌, refl, ◌⊎◌, inl, inr, Bool, true, false, [], arith}
use pxc_anonymizer.Errors.{Err, joined, Result, ok, err}
use pxc_anonymizer.Sql.{Server, Io}
use pxc_anonymizer.Pager.Identifier.{quote_identifier}

abbrev pub checks_off : String
checks_off = "SET FOREIGN_KEY_CHECKS=0"

abbrev pub checks_on : String
checks_on = "SET FOREIGN_KEY_CHECKS=1"

-- `errors.Join` of the error of the truncation, if any, and that of the reset.
abbrev pub join_reset : Result (Unit {0}) → Err → Err
join_reset (ok u) reset = reset
join_reset (err e) reset = joined e reset

module _ {C : Type 0} (S : Server C) (discard : C → C) where
  -- The deferred function, on the result of its own statement.
  abbrev pub after_reset : Result (Unit {0}) → Result (Unit {0}) × C → Result (Unit {0}) × C
  after_reset r (ok u, c) = (r, c)
  after_reset r (err e, c) = (err (join_reset r e), discard c)

  abbrev pub reset : Result (Unit {0}) × C → Result (Unit {0}) × C
  reset (r, c) = after_reset r (S.exec c checks_on [])

  abbrev pub truncate_with : String → Result (Unit {0}) × C → Result (Unit {0}) × C
  truncate_with target (err e, c) = (err e, c)
  truncate_with target (ok u, c) = reset (S.exec c ("TRUNCATE TABLE " <> target) [])

  abbrev pub truncate_quoted : String → Result String → Bool → Io C (Unit {0})
  truncate_quoted db (err e) dry_run c = (err e, c)
  truncate_quoted db (ok name) true c = (ok tt, c)
  truncate_quoted db (ok name) false c =
      truncate_with (db <> ("." <> name)) (S.exec c checks_off [])

  abbrev pub truncate_in : Result String → String → Bool → Io C (Unit {0})
  truncate_in (err e) table dry_run c = (err e, c)
  truncate_in (ok db) table dry_run c = truncate_quoted db (quote_identifier table) dry_run c

  -- `Truncate`. `discard` is what `Raw` with `ErrBadConn` makes of the connection.
  unfoldable pub truncate : String → String → Bool → Io C (Unit {0})
  truncate database table dry_run c = truncate_in (quote_identifier database) table dry_run c

-- What the statements do to a connection, of which `checks` says whether its foreign-key checks are
-- on, and `pooled` whether it can be used again: a statement that fails to switch the checks off leaves
-- them as they are, one that switches them on does so unless it fails, and a discarded connection
-- is not used again.
pub record IsSession {C : Type 0} (S : Server C) (discard : C → C) (checks pooled : C → Bool)
    : Type 0 where
  pub off_fails : (c c' : C) (e : Err) → S.exec c checks_off [] ≡ (err e, c') → checks c' ≡ checks c
  pub on_succeeds : (c c' : C) → S.exec c checks_on [] ≡ (ok tt, c') → checks c' ≡ true
  pub discarded : (c : C) → pooled (discard c) ≡ false

module _ {C : Type 0} {S : Server C} {discard : C → C} {checks pooled : C → Bool}
    (L : IsSession S discard checks pooled) where
  after_reset-safe :
      (r : Result (Unit {0})) (c : C)
      → let d = (after_reset S discard r (S.exec c checks_on [])).1 in
        (checks d ≡ true) ⊎ (pooled d ≡ false)
  after_reset-safe r c = go (S.exec c checks_on []) refl
    where
      go :
          (q : Result (Unit {0}) × C)
          → S.exec c checks_on [] ≡ q
          → (checks (after_reset S discard r q).1 ≡ true)
            ⊎ (pooled (after_reset S discard r q).1 ≡ false)
      go (ok u, d) e = inl (L.on_succeeds c d e)
      go (err x, d) e = inr (L.discarded d)

  truncate_with-safe :
      (target : String) (c : C)
      → checks c ≡ true
      → let d = (truncate_with S discard target (S.exec c checks_off [])).1 in
        (checks d ≡ true) ⊎ (pooled d ≡ false)
  truncate_with-safe target c h = go (S.exec c checks_off []) refl
    where
      go :
          (q : Result (Unit {0}) × C)
          → S.exec c checks_off [] ≡ q
          → (checks (truncate_with S discard target q).1 ≡ true)
            ⊎ (pooled (truncate_with S discard target q).1 ≡ false)
      go (err x, d) e = inl (ground (arith, L.off_fails c d x e))
      go (ok u, d) e =
          after_reset-safe (S.exec d ("TRUNCATE TABLE " <> target) []).0
            (S.exec d ("TRUNCATE TABLE " <> target) []).1

  -- A connection that enters `Truncate` with its foreign-key checks on leaves it with the checks on or
  -- is discarded, on every path: refused names, a dry run, and a failure of any statement.
  pub truncate_restores :
      (database table : String) (dry_run : Bool) (c : C)
      → checks c ≡ true
      → let d = (truncate S discard database table dry_run c).1 in
        (checks d ≡ true) ⊎ (pooled d ≡ false)
  unfolding truncate
  truncate_restores database table dry_run c h = in_database (quote_identifier database)
    where
      named :
          (db : String) (name : Result String) (dry : Bool)
          → (checks (truncate_quoted S discard db name dry c).1 ≡ true)
            ⊎ (pooled (truncate_quoted S discard db name dry c).1 ≡ false)
      named db (err x) dry = inl h
      named db (ok name) true = inl h
      named db (ok name) false = truncate_with-safe (db <> ("." <> name)) c h

      in_database :
          (q : Result String)
          → (checks (truncate_in S discard q table dry_run c).1 ≡ true)
            ⊎ (pooled (truncate_in S discard q table dry_run c).1 ≡ false)
      in_database (err x) = inl h
      in_database (ok db) = named db (quote_identifier table) dry_run
