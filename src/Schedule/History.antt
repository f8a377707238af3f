-- ===== src/Schedule/History.antt =====
-- Which runs the history limits remove.
use pxc_anonymizer.Prelude.{
  ℕ, zero, suc, ◌-◌, ◌<◌, ◌≡◌, ◌⊎◌, ◌++◌, ap, refl, true, false, List, [], ◌∷◌, length, length-take,
  take, drop, leb, All, arith, Bool-cases, inl, inr,
}
use mathlib.Core.List.{Perm}
use mathlib.Core.List.Perm
use pxc_anonymizer.Backups.{text_lt}
use pxc_anonymizer.Backups.Order.{ComesFirst, text_lt-ComesFirst}
use pxc_anonymizer.Schedule.{Run, completion_time, is_before, insert_run, sort_runs, victims}

text_lt-negative :
    (s t u : List ℕ) → text_lt t s ≡ false → text_lt u t ≡ false → text_lt u s ≡ false
unfolding text_lt
text_lt-negative [] t u h k = refl
text_lt-negative (a ∷ s) [] u h k = absurd (cc)
text_lt-negative (a ∷ s) (b ∷ t) [] h k = absurd (cc)
text_lt-negative (a ∷ s) (b ∷ t) (c ∷ u) h k = ground (arith, text_lt-negative s t u)

text_lt-asymmetric : (s t : List ℕ) → text_lt s t ≡ true → text_lt t s ≡ false
unfolding text_lt
text_lt-asymmetric s [] h = absurd (cc)
text_lt-asymmetric [] (b ∷ t) h = refl
text_lt-asymmetric (a ∷ s) (b ∷ t) h = ground (arith, text_lt-asymmetric s t)

is_before-negative :
    (x y z : Run) → is_before y x ≡ false → is_before z y ≡ false → is_before z x ≡ false
unfolding is_before
is_before-negative x y z h k = ground (arith, text_lt-negative x.name y.name z.name)

is_before-asymmetric : (x y : Run) → is_before x y ≡ true → is_before y x ≡ false
unfolding is_before
is_before-asymmetric x y h = ground (arith, text_lt-asymmetric x.name y.name)

unfoldable pub IsSorted : List Run → Type 0
IsSorted [] = Unit
IsSorted (x ∷ xs) = All (λ y. is_before y x ≡ false) xs × IsSorted xs

pub All-insert_run :
    (P : Run → Type 0) (x : Run) (xs : List Run) → P x → All P xs → All P (insert_run x xs)
unfolding insert_run
All-insert_run P x [] h a = (h, tt)
All-insert_run P x (y ∷ xs) h a = elim (Bool-cases (is_before y x)) [
  | inl before ↦ rw before (a.0, All-insert_run P x xs h a.1)
  | inr after ↦ rw after (h, a)
]

All-weaken :
    (x y : Run) (xs : List Run)
    → is_before y x ≡ false
    → All (λ z. is_before z y ≡ false) xs
    → All (λ z. is_before z x ≡ false) xs
All-weaken x y [] h a = tt
All-weaken x y (z ∷ xs) h a = (is_before-negative x y z h a.0, All-weaken x y xs h a.1)

insert_run-IsSorted : (x : Run) (xs : List Run) → IsSorted xs → IsSorted (insert_run x xs)
unfolding insert_run IsSorted
insert_run-IsSorted x [] s = (tt, tt)
insert_run-IsSorted x (y ∷ xs) s = elim (Bool-cases (is_before y x)) [
  | inl before ↦ rw before (
    All-insert_run (λ z. is_before z y ≡ false) x xs (is_before-asymmetric y x before) s.0,
    insert_run-IsSorted x xs s.1,
  )
  | inr after ↦ rw after ((after, All-weaken x y xs after s.0), s)
]

sort_runs-IsSorted : (xs : List Run) → IsSorted (sort_runs xs)
unfolding sort_runs IsSorted
sort_runs-IsSorted [] = tt
sort_runs-IsSorted (x ∷ xs) = insert_run-IsSorted x (sort_runs xs) (sort_runs-IsSorted xs)

length-insert_run : (x : Run) (xs : List Run) → length (insert_run x xs) ≡ suc (length xs)
unfolding insert_run
length-insert_run x [] = refl
length-insert_run x (y ∷ xs) = ground (arith, length-insert_run x xs)

All-drop : (P : Run → Type 0) (n : ℕ) (xs : List Run) → All P xs → All P (drop n xs)
All-drop P zero xs a = a
All-drop P (suc n) [] a = tt
All-drop P (suc n) (x ∷ xs) a = All-drop P n xs a.1

split_sorted :
    (n : ℕ) (xs : List Run)
    → IsSorted xs
    → All (λ v. All (λ k. is_before k v ≡ false) (drop n xs)) (take n xs)
unfolding IsSorted
split_sorted zero xs s = tt
split_sorted (suc n) [] s = tt
split_sorted (suc n) (x ∷ xs) s =
    (All-drop (λ k. is_before k x ≡ false) n xs s.0, split_sorted n xs s.1)

length-sort_runs : (xs : List Run) → length (sort_runs xs) ≡ length xs
unfolding sort_runs
length-sort_runs [] = refl
length-sort_runs (x ∷ xs) = ground (arith, length-insert_run x (sort_runs xs), length-sort_runs xs)

-- The first run completed earlier than the second (was created earlier, where a completion time is missing),
-- or at the same time, and its name is not after the other's.
abbrev pub IsOlder : Run → Run → Type 0
IsOlder v k =
    (completion_time v < completion_time k)
    ⊎ ((completion_time v ≡ completion_time k) × ComesFirst v.name k.name)

not_before-IsOlder : (v k : Run) → is_before k v ≡ false → IsOlder v k
unfolding is_before
not_before-IsOlder v k h = let name = text_lt-ComesFirst k.name v.name in ground arith

All-IsOlder : (v : Run) (ks : List Run) → All (λ k. is_before k v ≡ false) ks → All (IsOlder v) ks
All-IsOlder v [] h = tt
All-IsOlder v (k ∷ ks) h = (not_before-IsOlder v k h.0, All-IsOlder v ks h.1)

victims-IsOlder :
    (vs ks : List Run)
    → All (λ v. All (λ k. is_before k v ≡ false) ks) vs
    → All (λ v. All (IsOlder v) ks) vs
victims-IsOlder [] ks h = tt
victims-IsOlder (v ∷ vs) ks h = (All-IsOlder v ks h.0, victims-IsOlder vs ks h.1)

insert_run-Perm : (x : Run) (xs : List Run) → Perm (insert_run x xs) (x ∷ xs)
unfolding insert_run
insert_run-Perm x [] = Perm.rfl
insert_run-Perm x (y ∷ xs) = elim (Bool-cases (is_before y x)) [
  | inl before ↦ rw before (Perm.trans (Perm.cons y (insert_run-Perm x xs)) (Perm.swap x y xs))
  | inr after ↦ rw after Perm.rfl
]

sort_runs-Perm : (xs : List Run) → Perm (sort_runs xs) xs
unfolding sort_runs
sort_runs-Perm [] = Perm.rfl
sort_runs-Perm (x ∷ xs) =
    Perm.trans (insert_run-Perm x (sort_runs xs)) (Perm.cons x (sort_runs-Perm xs))

append-take-drop : (n : ℕ) (xs : List Run) → take n xs ++ drop n xs ≡ xs
append-take-drop zero xs = refl
append-take-drop (suc n) [] = refl
append-take-drop (suc n) (x ∷ xs) = ap (λ ys. x ∷ ys) (append-take-drop n xs)

-- Of a group of runs `pruneGroup` goes through as many as are beyond the limit; they and those that it
-- keeps are the runs of the group, each once; and each of them completed earlier than each one that is kept
-- (was created earlier, where a completion time is missing), or at the same time with a name that is not
-- after the other's.
pub victims_oldest :
    (runs : List Run) (limit : ℕ)
    → (kept : List Run) × Perm (victims runs limit ++ kept) runs
      × (length (victims runs limit) ≡ length runs - limit)
      × All (λ v. All (IsOlder v) kept) (victims runs limit)
unfolding victims
victims_oldest runs limit = elim (Bool-cases (leb (length runs) limit)) [
  | inl few ↦ rw few (runs, Perm.rfl, ground arith, tt)
  | inr many ↦ rw many (
    drop (length runs - limit) (sort_runs runs),
    rw (append-take-drop (length runs - limit) (sort_runs runs)) (sort_runs-Perm runs),
    omega (arith, length-take (length runs - limit) (sort_runs runs), length-sort_runs runs),
    victims-IsOlder (take (length runs - limit) (sort_runs runs))
        (drop (length runs - limit) (sort_runs runs))
        (split_sorted (length runs - limit) (sort_runs runs) (sort_runs-IsSorted runs)),
  )
]
