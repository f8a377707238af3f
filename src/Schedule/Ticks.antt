-- ===== src/Schedule/Ticks.antt =====
-- The latest missed tick, among all ticks up to now.
use pxc_anonymizer.Prelude.{
  ℕ, zero, suc, ◌+◌, ◌≤◌, ◌<◌, ◌≡◌, refl, ◌⊎◌, inl, inr, true, false, Option, none, some, ltb,
  arith, Bool-cases,
}
use pxc_anonymizer.Schedule.{Missed, scan_ticks, latest_missed_tick}

-- The n-th tick after a time.
unfoldable pub nth_tick : (ℕ → Option ℕ) → ℕ → ℕ → Option ℕ
nth_tick next earliest zero = some earliest
nth_tick next earliest (suc n) = elim (nth_tick next earliest n) [ none ↦ none | some t ↦ next t ]

-- A tick that there is not, or that is after now.
unfoldable pub IsAhead : ℕ → Option ℕ → Type 0
IsAhead now none = Unit
IsAhead now (some t) = now < t

abbrev pub IsLatest : (ℕ → Option ℕ) → ℕ → ℕ → Option ℕ → ℕ → Type 0
IsLatest next earliest now latest n =
    ((n ≡ 0) × (latest ≡ none))
    ⊎ ((t : ℕ) × (0 < n) × (latest ≡ some t) × (nth_tick next earliest n ≡ some t) × (t ≤ now))

-- Either there are at most 100 ticks to catch up with, or the 101st one is missed too.
unfoldable pub IsScan : (ℕ → Option ℕ) → ℕ → ℕ → Missed → Type 0
IsScan next earliest now m =
    ((m.too_many ≡ false)
      × (m.count ≤ 100)
      × IsLatest next earliest now m.latest m.count
      × IsAhead now (nth_tick next earliest (suc m.count)))
    ⊎ ((m.too_many ≡ true)
        × (m.latest ≡ none)
        × ((t : ℕ) × (nth_tick next earliest 101 ≡ some t) × (t ≤ now)))

next_tick :
    (next : ℕ → Option ℕ) (earliest count t : ℕ)
    → nth_tick next earliest (suc count) ≡ some t
    → nth_tick next earliest (suc (suc count)) ≡ next t
unfolding nth_tick
next_tick next earliest count t e = rw e refl

scan_ticks-IsScan :
    (next : ℕ → Option ℕ) (earliest now left : ℕ) (tick latest : Option ℕ) (count : ℕ)
    → left + count ≡ 102
    → count ≤ 100
    → nth_tick next earliest (suc count) ≡ tick
    → IsLatest next earliest now latest count
    → IsScan next earliest now (scan_ticks next now left tick latest count)
unfolding scan_ticks IsScan IsAhead
scan_ticks-IsScan next earliest now zero tick latest count fuel few here l = absurd (omega arith)
scan_ticks-IsScan next earliest now (suc left) none latest count fuel few here l =
    inl (refl, few, l, rw here tt)
scan_ticks-IsScan next earliest now (suc left) (some t) latest count fuel few here l =
    elim (Bool-cases (ltb now t)) [
      | inl ahead ↦ rw ahead (inl (refl, few, l, rw here (ground arith)))
      | inr missed ↦ elim (Bool-cases (ltb 100 (suc count))) [
        | inl full ↦
            let e : count ≡ 100 = ground arith in
            rw (missed, full) (inr (refl, refl, (t, rw e at here, ground arith)))
        | inr more ↦
            rw (missed, more)
              (scan_ticks-IsScan next earliest now left (next t) (some t) (suc count) (omega arith)
                (ground arith) (next_tick next earliest count t here)
                (inr (t, omega arith, refl, here, ground arith)))
      ]
    ]

-- When `scheduleLatestMissedTick` does not give up, it has counted at most 100 ticks, the tick that it
-- returns is the last one of them, not after now, or there is none and the count is 0, and
-- the tick after those is ahead; it gives up only when the 101st tick is missed as well.
pub latest_missed_tick-IsScan :
    (next : ℕ → Option ℕ) (earliest now : ℕ)
    → IsScan next earliest now (latest_missed_tick next earliest now)
unfolding latest_missed_tick nth_tick
latest_missed_tick-IsScan next earliest now =
    scan_ticks-IsScan next earliest now 102 (next earliest) none 0 refl (omega arith) refl
      (inl (refl, refl))
