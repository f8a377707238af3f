-- ===== src/SqlStep/AtMostOnce.antt =====
-- Sequences of calls of a step, with their failures, and what reaches the server.
use pxc_anonymizer.Prelude.{
  ℕ, suc, ◌≡◌, ◌≢◌, refl, inl, inr, String, ◌<>◌, Bool, true, false, Option, none, some, [], ◌≤◌,
  arith,
}
use pxc_anonymizer.Errors.{ok, Result-cases}
use pxc_anonymizer.Sql.{SavedRow, Server, in_tx}
use pxc_anonymizer.Checkpoint.{Key, Progress, no_progress, loaded, load, save, load_sql, load_args}
use pxc_anonymizer.Checkpoint.Cursor.{Formats, encode}
use pxc_anonymizer.Pager.Identifier.{quote_identifier}
use pxc_anonymizer.SqlStep.{execute, claim, record_intent, record_done, after_intent, run}
use pxc_anonymizer.SqlStep.Durability.{IsDurable}

loaded-none :
    (F : Formats) (k : Key) (row : Option SavedRow) (p : Progress)
    → loaded F k row ≡ ok p
    → p.exists ≡ false
    → row ≡ none
unfolding loaded
loaded-none F k none p h e = refl
loaded-none F k (some r) p h e = ground arith

-- Whether a checkpoint row is there and says that the step is done.
abbrev pub done_of : Option SavedRow → Bool
done_of none = false
done_of (some r) = r.done

module _ {C : Type 0} {S : Server C} (F : Formats) {k : Key} {body : String}
    {saved pending : C → Option SavedRow} {runs : C → ℕ}
    (L : IsDurable S k body saved pending runs) where
  -- The body has been sent at most once, and not at all before an intent is saved.
  abbrev pub IsOnce : C → Type 0
  IsOnce c = (runs c ≤ 1) × (saved c ≡ none → runs c ≡ 0)

  -- The transaction's view after a successful load is what it was, and the loaded progress exists
  -- just when the row does.
  load_keeps :
      (c : C)
      → (saved (load F S k c).1 ≡ saved c)
        × (runs (load F S k c).1 ≡ runs c)
        × (pending (load F S k c).1 ≡ pending c)
  unfolding load
  load_keeps c = ground (arith, L.load_keeps c)

  load_absent :
      (c : C) (p : Progress) → (load F S k c).0 ≡ ok p → p.exists ≡ false → pending c ≡ none
  unfolding load
  load_absent c p h e = elim (Result-cases (S.query_progress c load_sql (load_args k)).0) [
    | inl (row, q) ↦ ground (arith, L.load_reads c row q, loaded-none F k row p)
    | inr (x, q) ↦ ground arith
  ]

  save_keeps :
      (c : C) (p : Progress)
      → (saved (save F S k p c).1 ≡ saved c) × (runs (save F S k p c).1 ≡ runs c)
  unfolding save
  save_keeps c p = elim (Result-cases (encode F p.last_pk)) [
    | inl (cursor, q) ↦ ground (arith, L.save_keeps c cursor p)
    | inr (x, q) ↦ ground arith
  ]

  save_writes :
      (c : C) (p : Progress)
      → (save F S k p c).0 ≡ ok tt
      → (pending (save F S k p c).1 ≢ none) × (done_of (pending (save F S k p c).1) ≡ p.done)
  unfolding save
  save_writes c p h = elim (Result-cases (encode F p.last_pk)) [
    | inl (cursor, q) ↦ ground (arith, L.save_writes c cursor p)
    | inr (x, q) ↦ ground arith
  ]

  -- The first transaction sends nothing and never loses a row. It leaves an intent behind where the
  -- body is to be executed, and lets that happen only where there was no row.
  record_intent_effect :
      (c : C)
      → (runs (record_intent S F k c).1 ≡ runs c)
        × (saved c ≢ none → saved (record_intent S F k c).1 ≢ none)
        × ((record_intent S F k c).0 ≡ ok none
            → (saved c ≡ none) × (saved (record_intent S F k c).1 ≢ none))
        × ((record_intent S F k c).0 ≢ ok (some true))
  unfolding record_intent in_tx claim
  record_intent_effect c =
      let c1 = (S.begin_tx c).1 in
      let c2 = (load F S k c1).1 in
      let c3 = (save F S k no_progress c2).1 in
      elim (Result-cases (load F S k c1).0) [
        | inl (p, q) ↦ ground (
          arith,
          L.begin_keeps c,
          L.begin_opens c,
          load_keeps c1,
          load_absent c1 p q,
          save_keeps c2 no_progress,
          save_writes c2 no_progress,
          L.commit_keeps c3,
          L.commit_atomic c3,
          L.commit_durable c3,
          L.rollback_keeps c2,
          L.rollback_keeps c3,
        )
        | inr (x, q) ↦ ground (arith, L.begin_keeps c, load_keeps c1, L.rollback_keeps c2)
      ]

  execute_keeps :
      (database : String) (c : C)
      → (saved (execute S database body false c).1 ≡ saved c)
        × (runs (execute S database body false c).1 ≤ suc (runs c))
  unfolding execute
  execute_keeps database c = elim (Result-cases (quote_identifier database)) [
    | inl (quoted, q) ↦
        let c1 = (S.exec c ("USE " <> quoted) []).1 in
        ground (arith, L.use_keeps c quoted, L.body_keeps c1, L.body_counts c1)
    | inr (x, q) ↦ ground arith
  ]

  execute_dry : (database : String) (c : C) → (execute S database body true c).1 ≡ c
  unfolding execute
  execute_dry database c = ground arith

  execute_counts :
      (database : String) (c : C)
      → (execute S database body false c).0 ≡ ok tt
      → runs (execute S database body false c).1 ≡ suc (runs c)
  unfolding execute
  execute_counts database c h = elim (Result-cases (quote_identifier database)) [
    | inl (quoted, q) ↦
        let c1 = (S.exec c ("USE " <> quoted) []).1 in
        ground (arith, L.use_keeps c quoted, L.body_keeps c1, L.body_counts c1)
    | inr (x, q) ↦ ground arith
  ]

  record_done_keeps :
      (c : C)
      → (runs (record_done S F k c).1 ≡ runs c)
        × (saved c ≢ none → saved (record_done S F k c).1 ≢ none)
        × ((record_done S F k c).0 ≡ ok tt → done_of (saved (record_done S F k c).1) ≡ true)
  unfolding record_done in_tx
  record_done_keeps c =
      let p = record no_progress { done = true } in
      let c1 = (S.begin_tx c).1 in
      let c2 = (save F S k p c1).1 in
      ground (
        arith,
        L.begin_keeps c,
        L.begin_opens c,
        save_keeps c1 p,
        save_writes c1 p,
        L.commit_keeps c2,
        L.commit_atomic c2,
        L.commit_durable c2,
        L.rollback_keeps c2,
      )

  after_intent-IsOnce :
      (database : String) (c : C)
      → runs c ≡ 0
      → saved c ≢ none
      → IsOnce (after_intent S F database body k none c).1
  unfolding after_intent
  after_intent-IsOnce database c r s =
      let c1 = (execute S database body false c).1 in
      ground (arith, execute_keeps database c, record_done_keeps c1)

  -- One call of `Run` on the step's key.
  run-IsOnce :
      (database : String) (dry_run : Bool) (c : C)
      → IsOnce c
      → IsOnce (run S F database body k dry_run c).1
  unfolding run after_intent
  run-IsOnce database dry_run c h =
      let c1 = (record_intent S F k c).1 in
      ground
        (arith, record_intent_effect c, after_intent-IsOnce database c1, execute_dry database c)

  -- What can happen to a step: `Run` is called on it, in either mode, and the server does other work
  -- that neither touches the step's checkpoint row nor sends its body. A crash in the middle of
  -- `Run` is a call in which every later request fails.
  pub data Attempts (c : C) : C → Type 0 where
    start : Attempts c c
    attempt :
        {d : C} (database : String) (dry_run : Bool)
        → Attempts c d
        → Attempts c (run S F database body k dry_run d).1
    elsewhere :
        {d : C} (d' : C) → Attempts c d → saved d' ≡ saved d → runs d' ≡ runs d → Attempts c d'

  Attempts-IsOnce : {c d : C} → IsOnce c → Attempts c d → IsOnce d
  Attempts-IsOnce h start = h
  Attempts-IsOnce h (attempt {d} database dry_run a) =
      run-IsOnce database dry_run d (Attempts-IsOnce h a)
  Attempts-IsOnce h (elsewhere {d} d' a same_row same_runs) = ground (arith, Attempts-IsOnce h a)

  -- From a state where the step has neither a checkpoint row nor been sent, any sequence of calls
  -- of `Run`, with any failures of the server that its transactions' laws allow, sends the step's
  -- body to the server at most once.
  pub Attempts-at_most_once : {c d : C} → runs c ≡ 0 → saved c ≡ none → Attempts c d → runs d ≤ 1
  Attempts-at_most_once fresh absent a = (Attempts-IsOnce (omega arith, λ e. fresh) a).0

  -- When `Run` reports that the body was executed, no row was saved before, the body was sent in this
  -- call, exactly once, and a row that says done is saved. Where a row is saved already, done or
  -- not, `Run` does not send the body, whatever it returns.
  pub run_reports :
      (database : String) (c : C)
      → ((run S F database body k false c).0 ≡ ok true
          → (saved c ≡ none)
            × (runs (run S F database body k false c).1 ≡ suc (runs c))
            × (done_of (saved (run S F database body k false c).1) ≡ true))
        × (saved c ≢ none → runs (run S F database body k false c).1 ≡ runs c)
  unfolding run after_intent
  run_reports database c =
      let c1 = (record_intent S F k c).1 in
      let c2 = (execute S database body false c1).1 in
      ground (arith, record_intent_effect c, execute_counts database c1, record_done_keeps c2)
