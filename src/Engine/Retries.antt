-- ===== src/Engine/Retries.antt =====
-- How long the loop over the pages of a table goes on.
use pxc_anonymizer.Prelude.{
  ℕ, zero, suc, ◌+◌, ◌*◌, ◌^◌, ◌≤◌, ◌<◌, String, ◌≡◌, ◌⊎◌, refl, inl, inr, Bool, true, false, ◌||◌,
  ◌==◌, nat_eq, Option, none, some, arith, Bool-cases, if-cases, if◌then◌else◌,
}
use pxc_anonymizer.Errors.{Result, ok, err}
use pxc_anonymizer.Sql.{Io}
use pxc_anonymizer.Checkpoint.{Progress}
use pxc_anonymizer.Engine.{
  Pool, Counters, is_transient, second, Round, opened, table_round, closed, paused, after_round,
  table_loop,
}

-- There is a result.
abbrev pub IsFinished : {A : Type 0} → Option A → Type 0
IsFinished none = ⊥
IsFinished (some a) = Unit

-- Connections, pauses and pages, one after the other, of which `n` pages have no error and report that the
-- table is not done.
pub data Trace {C : Type 0} (P : Pool C) (connect : Io C (Unit {0})) (page : Io C Progress)
    : ℕ → C → C → Type 0 where
  start : (c : C) → Trace P connect page 0 c c
  connected :
      {n : ℕ} {c d : C} → Trace P connect page n c d → Trace P connect page n c (connect d).1
  closing : {n : ℕ} {c d : C} → Trace P connect page n c d → Trace P connect page n c (P.close d)
  pausing :
      {n : ℕ} {c d : C}
      → Trace P connect page n c d
      → (time : ℕ) → Trace P connect page n c (P.pause d time).1
  paged : {n : ℕ} {c d : C} → Trace P connect page n c d → Trace P connect page n c (page d).1
  reported :
      {n : ℕ} {c d : C} {p : Progress}
      → Trace P connect page n c d
      → (page d).0 ≡ ok p
      → p.done ≡ false
      → Trace P connect page (suc n) c (page d).1

module _ {C : Type 0} (P : Pool C) (connect : Io C (Unit {0})) (page : Io C Progress)
    (key : String) where
  module _ (first : C) where
    -- What a round adds to a trace.
    abbrev Extends : ℕ → Round C → Type 0
    Extends k (ok p, (c, held)) =
        Trace P connect page k first c × (p.done ≡ false → Trace P connect page (suc k) first c)
    Extends k (err x, (c, held)) = Trace P connect page k first c

    page-Extends :
        (c : C) (k : ℕ)
        → Trace P connect page k first c
        → Extends k ((page c).0, ((page c).1, true))
    page-Extends c k t = go (page c).0 refl
      where
        go : (r : Result Progress) → (page c).0 ≡ r → Extends k (r, ((page c).1, true))
        go (ok p) e = (paged t, λ more. reported t e more)
        go (err x) e = paged t

    opened-Extends :
        (q : Result (Unit {0}) × C) (k : ℕ)
        → Trace P connect page k first q.1
        → Extends k (opened P connect page key q)
    opened-Extends (err e, c) k t = t
    opened-Extends (ok u, c) k t = page-Extends c k t

    round-Extends :
        (c : C) (held : Bool) (k : ℕ)
        → Trace P connect page k first c
        → Extends k (table_round P connect page key c held)
    unfolding table_round
    round-Extends c true k t = page-Extends c k t
    round-Extends c false k t = opened-Extends (connect c) k (connected t)

    closed-Trace :
        (c : C) (held : Bool) (k : ℕ)
        → Trace P connect page k first c
        → Trace P connect page k first (closed P connect page key c held)
    closed-Trace c true k t = closing t
    closed-Trace c false k t = t

    -- A result, or a trace with that many pages.
    abbrev Outcome : {A : Type 0} → ℕ → Option A → Type 0
    Outcome n o = IsFinished o ⊎ ((d : C) × Trace P connect page n first d)

    -- What is shown of the loop on this much fuel.
    abbrev Ends : ℕ → Type 0
    Ends fuel =
        (k n attempt : ℕ) (c : C) (held : Bool) (e : Counters)
        → attempt ≤ 3
        → 4 * n + 4 ≤ fuel + attempt
        → Trace P connect page k first c
        → Outcome (k + suc n) (table_loop P connect page key fuel attempt c held e)

    paused-Outcome :
        (fuel : ℕ) (ih : Ends fuel) (k n attempt : ℕ) (e : Counters) (q : Result (Unit {0}) × C)
        → attempt < 3
        → 4 * n + 4 ≤ suc fuel + attempt
        → Trace P connect page k first q.1
        → Outcome
            (k + suc n)
            (paused P connect page key (table_loop P connect page key fuel) attempt e q)
    paused-Outcome fuel ih k n attempt e (ok u, c) few enough t =
        ih k n (suc attempt) c false e (omega arith) (omega arith) t
    paused-Outcome fuel ih k n attempt e (err x, c) few enough t = inl tt

    more-Outcome :
        (fuel : ℕ) (ih : Ends fuel) (k n attempt : ℕ) (c : C) (held : Bool) (e : Counters)
        → attempt ≤ 3
        → 4 * n + 4 ≤ suc fuel + attempt
        → Trace P connect page (suc k) first c
        → Outcome (k + suc n) (table_loop P connect page key fuel 0 c held e)
    more-Outcome fuel ih k zero attempt c held e few enough t =
        let same : k + 1 ≡ suc k = omega arith in inr (c, rw same t)
    more-Outcome fuel ih k (suc n) attempt c held e few enough t =
        let same : k + suc (suc n) ≡ suc k + suc n = omega arith in
        rw same (ih (suc k) n 0 c held e (omega arith) (omega arith) t)

    after_round-Outcome :
        (fuel : ℕ) (ih : Ends fuel) (k n attempt : ℕ) (e : Counters) (q : Round C)
        → attempt ≤ 3
        → 4 * n + 4 ≤ suc fuel + attempt
        → Extends k q
        → Outcome
            (k + suc n)
            (after_round P connect page key (table_loop P connect page key fuel) attempt e q)
    after_round-Outcome fuel ih k n attempt e (ok p, (c, held)) few enough (t, more) =
        elim (Bool-cases p.done) [
          | inl done ↦ rw done (inl tt)
          | inr left_over ↦
              rw left_over (more-Outcome fuel ih k n attempt c held _ few enough (more left_over))
        ]
    after_round-Outcome fuel ih k n attempt e (err x, (c, held)) few enough t =
        if-cases (Outcome (k + suc n)) ((if is_transient x then false else true) || (attempt == 3))
          (λ stop. inl tt)
          (λ again.
            paused-Outcome fuel ih k n attempt e
              (P.pause (closed P connect page key c held) (second * 2 ^ attempt))
              (less attempt few (or_right _ (attempt == 3) again)) enough
              (pausing (closed-Trace c held k t) (second * 2 ^ attempt)))
      where
        or_right : (a b : Bool) → (a || b) ≡ false → b ≡ false
        or_right true b h = absurd (cc)
        or_right false b h = h

        less : (a : ℕ) → a ≤ 3 → (a == 3) ≡ false → a < 3
        less a h k = ground arith

    loop-Ends : (fuel : ℕ) → Ends fuel
    unfolding table_loop
    loop-Ends zero k n attempt c held e few enough t = absurd (omega arith)
    loop-Ends (suc fuel) k n attempt c held e few enough t =
        after_round-Outcome fuel (loop-Ends fuel) k n attempt e
          (table_round P connect page key c held) few enough (round-Extends c held k t)

  -- Whatever connections and pages do, the loop over the pages of a table, with at most 3 failures in a row so
  -- far, ends within `4 * n + 4` rounds less those failures, or more than `n` pages have no error and report
  -- that the table is not done: each page is tried at most four times.
  pub table_loop_ends :
      (n fuel attempt : ℕ) (c : C) (held : Bool) (e : Counters)
      → attempt ≤ 3
      → 4 * n + 4 ≤ fuel + attempt
      → IsFinished (table_loop P connect page key fuel attempt c held e)
        ⊎ ((d : C) × Trace P connect page (suc n) c d)
  table_loop_ends n fuel attempt c held e few enough =
      let same : 0 + suc n ≡ suc n = omega arith in
      rw same at (loop-Ends c fuel 0 n attempt c held e few enough (start c))
