-- ===== src/Engine/Counting.antt =====
-- The counters of the engine: its tables, rows and steps.
use pxc_anonymizer.Prelude.{
  ℕ, zero, suc, ◌+◌, ◌*◌, ◌^◌, String, ◌≡◌, refl, sym, ap, ◌∙◌, ◌⊎◌, inl, inr, Bool, true, false,
  ◌||◌, ◌==◌, nat_eq, text_eq, none, some, List, [], ◌∷◌, arith, Bool-cases, if-cases,
  if◌then◌else◌,
}
use pxc_anonymizer.Prelude.Int.{ℤ, pos, ◌+ℤ◌, ◌-ℤ◌, int_laws}
use pxc_anonymizer.Errors.{Err, Result, ok, err, is_uncertain}
use pxc_anonymizer.Sql.{Io, Server}
use pxc_anonymizer.Checkpoint.{Key, Progress}
use pxc_anonymizer.Checkpoint.Cursor.{Formats}
use pxc_anonymizer.SqlStep.{run}
use pxc_anonymizer.Engine.{
  Pool, Counters, rows_of, with_rows, progress, is_transient, second, Round, table_round, closed,
  Finish, paused, after_round, table_loop, StepRef, World, step_key, after_step, steps,
}

-- The rows of all tables.
unfoldable pub sum_rows : List (String × ℤ) → ℤ
sum_rows [] = pos 0
sum_rows ((k, n) ∷ rows) = n +ℤ sum_rows rows

abbrev pub IsTotal : Counters → Type 0
IsTotal e = e.rows_done ≡ sum_rows e.rows

sum_rows-with_rows :
    (rows : List (String × ℤ)) (key : String) (n : ℤ)
    → sum_rows (with_rows rows key n) ≡ sum_rows rows +ℤ (n -ℤ rows_of rows key)
unfolding sum_rows
sum_rows-with_rows [] key n = omega int_laws
sum_rows-with_rows ((k, m) ∷ rows) key n = elim (Bool-cases (k == key)) [
  | inl same ↦ rw same (omega int_laws)
  | inr other ↦ rw (other, sum_rows-with_rows rows key n) (omega int_laws)
]

progress-IsTotal :
    (key : String) (p : Progress) (e : Counters) → IsTotal e → IsTotal (progress key p e)
unfolding progress
progress-IsTotal key p e h =
    ap (λ n. n +ℤ (p.rows_done -ℤ rows_of e.rows key)) h
    ∙ sym (sum_rows-with_rows e.rows key p.rows_done)

module _ {C : Type 0} (P : Pool C) (connect : Io C (Unit {0})) (page : Io C Progress)
    (key : String) where
  -- The table is counted if it is done, and the rows stay the sum.
  abbrev pub Counts : Counters → Finish P connect page key → Type 0
  Counts e none = Unit
  Counts e (some (ok u, (c, f))) = (f.tables_done ≡ suc e.tables_done) × (IsTotal e → IsTotal f)
  Counts e (some (err x, (c, f))) = (f.tables_done ≡ e.tables_done) × (IsTotal e → IsTotal f)

  Counts-after :
      (e f : Counters) (o : Finish P connect page key)
      → f.tables_done ≡ e.tables_done
      → (IsTotal e → IsTotal f)
      → Counts f o
      → Counts e o
  Counts-after e f none same kept h = tt
  Counts-after e f (some (ok u, (c, g))) same kept (h, k) = (h ∙ ap suc same, λ t. k (kept t))
  Counts-after e f (some (err x, (c, g))) same kept (h, k) = (h ∙ same, λ t. k (kept t))

  progress-counts :
      (p : Progress) (e : Counters)
      → p.done ≡ false
      → (progress key p e).tables_done ≡ e.tables_done
  unfolding progress
  progress-counts p e more = rw more refl

  progress_done :
      (p : Progress) (e : Counters)
      → p.done ≡ true
      → (progress key p e).tables_done ≡ suc e.tables_done
  unfolding progress
  progress_done p e done = rw done refl

  abbrev CountsOn : ℕ → Type 0
  CountsOn fuel =
      (attempt : ℕ) (c : C) (held : Bool) (e : Counters)
      → Counts e (table_loop P connect page key fuel attempt c held e)

  paused-Counts :
      (fuel : ℕ) (ih : CountsOn fuel) (attempt : ℕ) (e : Counters) (q : Result (Unit {0}) × C)
      → Counts e (paused P connect page key (table_loop P connect page key fuel) attempt e q)
  paused-Counts fuel ih attempt e (ok u, c) = ih (suc attempt) c false e
  paused-Counts fuel ih attempt e (err x, c) = (refl, λ t. t)

  after_round-Counts :
      (fuel : ℕ) (ih : CountsOn fuel) (attempt : ℕ) (e : Counters) (q : Round C)
      → Counts e (after_round P connect page key (table_loop P connect page key fuel) attempt e q)
  after_round-Counts fuel ih attempt e (ok p, (c, held)) =
      if-cases (Counts e) p.done (λ done. (progress_done p e done, progress-IsTotal key p e))
        (λ more.
          Counts-after e (progress key p e)
            (table_loop P connect page key fuel 0 c held (progress key p e))
            (progress-counts p e more) (progress-IsTotal key p e) (ih 0 c held (progress key p e)))
  after_round-Counts fuel ih attempt e (err x, (c, held)) =
      if-cases (Counts e) ((if is_transient x then false else true) || (attempt == 3))
        (λ stop. (refl, λ t. t))
        (λ again.
          paused-Counts fuel ih attempt e
            (P.pause (closed P connect page key c held) (second * 2 ^ attempt)))

  -- When the loop over the pages of a table ends, the table is counted as done if and only if there is
  -- no error, and the rows that are reported are the sum over the tables, if they were before.
  pub table_loop-Counts :
      (fuel attempt : ℕ) (c : C) (held : Bool) (e : Counters)
      → Counts e (table_loop P connect page key fuel attempt c held e)
  unfolding table_loop
  table_loop-Counts zero attempt c held e = tt
  table_loop-Counts (suc fuel) attempt c held e =
      after_round-Counts fuel (table_loop-Counts fuel) attempt e
        (table_round P connect page key c held)

abbrev pub count_of : Result Bool → ℕ
count_of (ok executed) = 1
count_of (err x) = 0

-- The outcome of a step that the phase goes on after: it has no error, or one that is certain and passed over.
abbrev pub GoesOn : StepRef → Result Bool → Type 0
GoesOn ref (ok executed) = Unit
GoesOn ref (err x) = (is_uncertain x ≡ false) × (ref.continue_on_error ≡ true)

-- The error of a step that ends its phase: its outcome is uncertain, or its failures are not passed over.
abbrev pub EndsWith : StepRef → Result Bool → Err → Type 0
EndsWith ref (ok executed) y = ⊥
EndsWith ref (err x) y = (x ≡ y) × ((is_uncertain x ≡ true) ⊎ (ref.continue_on_error ≡ false))

module _ {C : Type 0} (P : Pool C) (S : Server C) (F : Formats) (key : Key) (phase : String) where
  -- The outcome of a step, and the state after it.
  abbrev pub outcome : ℕ → StepRef → C → Result Bool × C
  outcome i ref c = run S F key.database ref.body (step_key P S F key phase i ref) false c

  -- From a state each step is run after the one before it, the phase goes on after each, and `n` have no
  -- error.
  abbrev pub AllRun : ℕ → List StepRef → C → ℕ → C → Type 0
  AllRun i [] c n d = (n ≡ 0) × (d ≡ c)
  AllRun i (ref ∷ refs) c n d =
      GoesOn ref (outcome i ref c).0
      × ((m : ℕ) × (n ≡ count_of (outcome i ref c).0 + m)
          × AllRun (suc i) refs (outcome i ref c).1 m d)

  -- The same up to a step that ends the phase with the error `y`; the steps after it are not run.
  abbrev pub RunUpTo : Err → ℕ → List StepRef → C → ℕ → C → Type 0
  RunUpTo y i [] c n d = ⊥
  RunUpTo y i (ref ∷ refs) c n d =
      (EndsWith ref (outcome i ref c).0 y × (n ≡ 0) × (d ≡ (outcome i ref c).1))
      ⊎ (GoesOn ref (outcome i ref c).0
          × ((m : ℕ) × (n ≡ count_of (outcome i ref c).0 + m)
              × RunUpTo y (suc i) refs (outcome i ref c).1 m d))

  -- What a phase leaves: only the count of the steps is changed, by the steps without an error.
  abbrev pub StepsCounted : ℕ → List StepRef → C → Counters → Result (Unit {0}) × World C → Type 0
  StepsCounted i refs c e (ok u, (d, f)) =
      (n : ℕ) × (f ≡ record e { steps_done = n + e.steps_done }) × AllRun i refs c n d
  StepsCounted i refs c e (err y, (d, f)) =
      (n : ℕ) × (f ≡ record e { steps_done = n + e.steps_done }) × RunUpTo y i refs c n d

  none_counted : (e : Counters) → e ≡ record e { steps_done = 0 + e.steps_done }
  none_counted e =
      let same : e.steps_done ≡ 0 + e.steps_done = omega arith in
      ap (λ k. record e { steps_done = k }) same

  after_step-counted :
      (next : Io (World C) (Unit {0})) (i : ℕ) (ref : StepRef) (refs : List StepRef) (c : C)
      (e : Counters) (q : Result Bool × C)
      → outcome i ref c ≡ q
      → ((f : Counters) (d : C) → StepsCounted (suc i) refs d f (next (d, f)))
      → StepsCounted i (ref ∷ refs) c e (after_step P S F next ref e q)
  after_step-counted next i ref refs c e (ok executed, d) h ih = counted (next (d, f)) (ih f d)
    where
      f : Counters
      f = record e { steps_done = suc e.steps_done }

      moved :
          (n : ℕ)
          → record e { steps_done = n + suc e.steps_done }
            ≡ record e { steps_done = suc n + e.steps_done }
      moved n =
          let same_sum : n + suc e.steps_done ≡ suc n + e.steps_done = omega arith in
          ap (λ k. record e { steps_done = k }) same_sum

      counted :
          (r : Result (Unit {0}) × World C)
          → StepsCounted (suc i) refs d f r
          → StepsCounted i (ref ∷ refs) c e r
      counted (ok u, (d', g)) (n, same, all) =
          (suc n, same ∙ moved n, rw h (tt, (n, omega arith, all)))
      counted (err y, (d', g)) (n, same, some_run) =
          (suc n, same ∙ moved n, inr (rw h (tt, (n, omega arith, some_run))))
  after_step-counted next i ref refs c e (err x, d) h ih =
      if-cases (StepsCounted i (ref ∷ refs) c e)
        (is_uncertain x || (if ref.continue_on_error then false else true))
        (λ stop. (
          0,
          none_counted e,
          inl (rw h ((refl, stopped (is_uncertain x) ref.continue_on_error stop), refl, refl)),
        ))
        (λ passed.
          counted (next (d, e)) (went_on (is_uncertain x) ref.continue_on_error passed) (ih e d))
    where
      stopped : (a b : Bool) → (a || (if b then false else true)) ≡ true → (a ≡ true) ⊎ (b ≡ false)
      stopped true b s = inl refl
      stopped false true s = absurd (cc)
      stopped false false s = inr refl

      went_on : (a b : Bool) → (a || (if b then false else true)) ≡ false → (a ≡ false) × (b ≡ true)
      went_on true b s = absurd (cc)
      went_on false true s = (refl, refl)
      went_on false false s = absurd (cc)

      counted :
          (r : Result (Unit {0}) × World C)
          → (is_uncertain x ≡ false) × (ref.continue_on_error ≡ true)
          → StepsCounted (suc i) refs d e r
          → StepsCounted i (ref ∷ refs) c e r
      counted (ok u, (d', g)) on (n, same, all) = (n, same, rw h (on, (n, omega arith, all)))
      counted (err y, (d', g)) on (n, same, some_run) =
          (n, same, inr (rw h (on, (n, omega arith, some_run))))

  -- The SQL steps of a phase are run one after the other. The phase ends without an error exactly where each
  -- step has no error, or one that is certain and passed over; it ends with the error of the first step
  -- whose outcome is uncertain, or whose failures are not passed over, and no step after it is run. The
  -- steps without an error are counted, no others, and no other counter changes.
  pub steps-StepsCounted :
      (i : ℕ) (refs : List StepRef) (e : Counters) (c : C)
      → StepsCounted i refs c e (steps P S F key phase i refs (c, e))
  unfolding steps
  steps-StepsCounted i [] e c = (0, none_counted e, (refl, refl))
  steps-StepsCounted i (ref ∷ refs) e c =
      after_step-counted (steps P S F key phase (suc i) refs) i ref refs c e (outcome i ref c) refl
        (λ f d. steps-StepsCounted (suc i) refs f d)
