-- ===== src/Runs/Retention.antt =====
-- What the retention of a run removes, and what it leaves.
use pxc_anonymizer.Prelude.{
  ℕ, suc, ◌+◌, ◌≤◌, String, ◌≡◌, refl, ◌⊎◌, inl, inr, Bool, true, false, ◌&&◌, ◌/=◌, text_eq,
  nat_eq, List, [], ◌∷◌, ltb, All, arith, if-cases, and_true, eq_iff, if◌then◌else◌,
}
use pxc_anonymizer.Prelude.Int.{ℤ}
use pxc_anonymizer.Schedule.{Run as ListedRun}
use pxc_anonymizer.Runs.{Backup}
use pxc_anonymizer.Runs.Publication.{is_surplus, counted, removals, is_settled_uid, kept_count}

-- How many of the backups have succeeded.
unfoldable pub succeeded : List Backup → ℕ
succeeded [] = 0
succeeded (b ∷ bs) = let rest = succeeded bs in if b.has_succeeded then suc rest else rest

-- A backup has one state.
abbrev pub HasOneState : Backup → Type 0
HasOneState b = b.has_failed ≡ true → b.has_succeeded ≡ false

-- A backup that may go: not the current output, and of a run that is settled.
abbrev pub IsRemovable : String → List ListedRun → Backup → Type 0
IsRemovable current runs b = (b.name ≡ current → ⊥) × (is_settled_uid runs b.run_uid ≡ true)

-- At most `k` less than the `n` ones are removed, of which `c` stand before.
abbrev Leaves : ℕ → ℕ → ℕ → ℕ → Type 0
Leaves k c m n = (m ≤ n) × ((m ≡ 0) ⊎ (m + k ≤ c + n))

leave_step :
    (good : Bool) (k c m n : ℕ)
    → Leaves k (if good then suc c else c) m n
    → Leaves k c m (if good then suc n else n)
leave_step true k c m n (few, spare) = ground arith
leave_step false k c m n h = h

remove_step :
    (good : Bool) (k c m n : ℕ)
    → (good ≡ true → k ≤ c)
    → Leaves k (if good then suc c else c) m n
    → Leaves k c (if good then suc m else m) (if good then suc n else n)
remove_step true k c m n enough (few, spare) =
    let h = enough refl in (omega arith, inr (omega arith))
remove_step false k c m n enough h = h

module _ (now : ℕ) (keep failed_after : ℤ) (current : String) (runs : List ListedRun) where
  surplus_lem :
      (b : Backup) (count : ℕ)
      → HasOneState b
      → is_surplus now keep failed_after b (counted b count) ≡ true
      → b.has_succeeded ≡ true
      → kept_count keep ≤ count
  unfolding is_surplus
  surplus_lem b count one h good =
      if-cases (λ x. x ≡ true → kept_count keep ≤ count) (b.has_failed && (b.created /= 0))
        (λ bad k.
          let (failed, old) = and_true b.has_failed (b.created /= 0) bad in
          absurd (let e = one failed in cc))
        (λ fine k.
          let (done, more) = and_true b.has_succeeded (ltb (kept_count keep) (counted b count)) k in
          let n : counted b count ≡ suc count = counted_lem b.has_succeeded done in
          let more' : ltb (kept_count keep) (suc count) ≡ true = rw n at more in ground arith)
        h
    where
      counted_lem : (g : Bool) → g ≡ true → (if g then suc count else count) ≡ suc count
      counted_lem true e = refl
      counted_lem false e = absurd (cc)

  abbrev is_taken : ℕ → Backup → Bool
  is_taken count b =
      is_surplus now keep failed_after b (counted b count)
      && (b.name /= current)
      && is_settled_uid runs b.run_uid

  removals-count :
      (count : ℕ) (bs : List Backup)
      → All HasOneState bs
      → Leaves
          (kept_count keep)
          count
          (succeeded (removals now keep failed_after current runs count bs))
          (succeeded bs)
  unfolding removals succeeded
  removals-count count [] one = (omega arith, inl refl)
  removals-count count (b ∷ bs) (one, others) =
      let rest = removals now keep failed_after current runs (counted b count) bs in
      let h = removals-count (counted b count) bs others in
      if-cases
        (λ xs.
          Leaves (kept_count keep) count (succeeded xs)
            (if b.has_succeeded then suc (succeeded bs) else succeeded bs))
        (is_taken count b)
        (λ taken.
          remove_step b.has_succeeded (kept_count keep) count (succeeded rest) (succeeded bs)
            (surplus_lem b count one
              (and_true (is_surplus now keep failed_after b (counted b count)) _
                (and_true _ (is_settled_uid runs b.run_uid) taken).0).0)
            h)
        (λ left.
          leave_step b.has_succeeded (kept_count keep) count (succeeded rest) (succeeded bs) h)

  removals-IsRemovable :
      (count : ℕ) (bs : List Backup)
      → All (IsRemovable current runs) (removals now keep failed_after current runs count bs)
  unfolding removals
  removals-IsRemovable count [] = tt
  removals-IsRemovable count (b ∷ bs) =
      let h = removals-IsRemovable (counted b count) bs in
      if-cases (All (IsRemovable current runs)) (is_taken count b)
        (λ taken.
          let (other, settled) = and_true _ (is_settled_uid runs b.run_uid) taken in
          let (surplus, apart) =
            and_true (is_surplus now keep failed_after b (counted b count)) (b.name /= current)
              other in
          ((name_lem apart, settled), h))
        (λ left. h)
    where
      name_lem : {s : String} → (s /= current) ≡ true → s ≡ current → ⊥
      name_lem {s} e same =
          let e' : false ≡ true = rw ((eq_iff s current).1 same) at e in absurd (cc)

  -- The retention of a run removes neither the run's own output nor a backup whose run is not
  -- settled, and of the succeeded backups it leaves at least the number to keep, or removes none,
  -- provided that no backup has and_true succeeded and failed.
  pub removals_lem :
      (bs : List Backup)
      → All HasOneState bs
      → All (IsRemovable current runs) (removals now keep failed_after current runs 0 bs)
        × ((succeeded (removals now keep failed_after current runs 0 bs) ≡ 0)
            ⊎ (succeeded (removals now keep failed_after current runs 0 bs) + kept_count keep
                ≤ succeeded bs))
  removals_lem bs one = (
    removals-IsRemovable 0 bs,
    elim (removals-count 0 bs one).1 [ inl e ↦ inl e | inr h ↦ inr (omega arith) ],
  )
