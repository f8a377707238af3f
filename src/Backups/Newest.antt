-- ===== src/Backups/Newest.antt =====
-- The selected backup among the candidates.
use pxc_anonymizer.Prelude.{
  ℕ, ◌<◌, ◌≡◌, ◌≢◌, refl, sym, ◌∙◌, ◌⊎◌, inl, inr, true, false, none, some, List, [], ◌∷◌, ◌==◌,
  text_eq, nat_eq, All, Any, arith, Bool-cases, Option-cases,
}
use pxc_anonymizer.Backups.Order.{ComesFirst, text_lt-ComesFirst}
use pxc_anonymizer.Backups.{
  Backup, Selection, has_succeeded, text_lt, completion, is_newer, better, consider, select_from,
  latest_succeeded,
}

-- A succeeded backup with a completion time.
unfoldable pub IsCandidate : Backup → Type 0
IsCandidate b = (has_succeeded b ≡ true) × (completion b ≢ 0)

text_lt-irreflexive : (s : List ℕ) → text_lt s s ≡ false
unfolding text_lt
text_lt-irreflexive [] = refl
text_lt-irreflexive (a ∷ s) = ground (arith, text_lt-irreflexive s)

text_lt-transitive : (s t u : List ℕ) → text_lt s t ≡ true → text_lt t u ≡ true → text_lt s u ≡ true
unfolding text_lt
text_lt-transitive s [] u h k = absurd (cc)
text_lt-transitive s (b ∷ t) [] h k = absurd (cc)
text_lt-transitive [] (b ∷ t) (c ∷ u) h k = refl
text_lt-transitive (a ∷ s) (b ∷ t) (c ∷ u) h k = ground (arith, text_lt-transitive s t u)

is_newer-irreflexive : (b : Backup) → is_newer b b ≡ false
unfolding is_newer
is_newer-irreflexive b = ground (arith, text_lt-irreflexive b.name)

is_newer-transitive :
    (a b c : Backup) → is_newer a b ≡ true → is_newer b c ≡ true → is_newer a c ≡ true
unfolding is_newer
is_newer-transitive a b c h k = ground (arith, text_lt-transitive a.name b.name c.name)

-- The selected backup gave way to newer ones only.
abbrev IsGrown : Backup → Backup → Type 0
IsGrown current best = (best ≡ current) ⊎ (is_newer best current ≡ true)

not_newer-IsGrown :
    (b current best : Backup)
    → is_newer b current ≡ false
    → IsGrown current best
    → is_newer b best ≡ false
not_newer-IsGrown b current best h (inl e) = rw e h
not_newer-IsGrown b current best h (inr n) = elim (Bool-cases (is_newer b best)) [
  | inl newer ↦ absurd (ground (arith, is_newer-transitive b best current newer n))
  | inr older ↦ older
]

IsGrown-transitive : (a b c : Backup) → IsGrown a b → IsGrown b c → IsGrown a c
IsGrown-transitive a b c h (inl e) = rw e h
IsGrown-transitive a b c (inl e) (inr n) = inr (rw (sym e) n)
IsGrown-transitive a b c (inr m) (inr n) = inr (is_newer-transitive c b a n m)

better_lem :
    (current b : Backup)
    → (next : Backup) × (better (some current) b ≡ some next)
      × IsGrown current next
      × (is_newer b next ≡ false)
better_lem current b = elim (Bool-cases (is_newer b current)) [
  | inl newer ↦ (b, rw newer refl, inr newer, is_newer-irreflexive b)
  | inr older ↦ (current, rw older refl, inl refl, older)
]

consider_grows :
    (s : Selection) (b current : Backup)
    → s.backup ≡ some current
    → (next : Backup) × ((consider s b).backup ≡ some next) × IsGrown current next
unfolding consider
consider_grows s b current e =
    let (next, made, grown, _) = better_lem current b in
    elim (Bool-cases (has_succeeded b)) [
      | inr bad ↦ (current, rw bad e, inl refl)
      | inl good ↦ elim (Bool-cases (completion b == 0)) [
        | inl missing ↦ (current, rw (good, missing) e, inl refl)
        | inr complete ↦ (next, rw (good, complete, e) made, grown)
      ]
    ]

select_from_grows :
    (s : Selection) (backups : List Backup) (current : Backup)
    → s.backup ≡ some current
    → (best : Backup) × ((select_from s backups).backup ≡ some best) × IsGrown current best
unfolding select_from
select_from_grows s [] current e = (current, e, inl refl)
select_from_grows s (b ∷ backups) current e =
    let (next, made, grown) = consider_grows s b current e in
    let (best, found, more) = select_from_grows (consider s b) backups next made in
    (best, found, IsGrown-transitive current next best grown more)

-- A candidate is in the selection or older than what is there.
consider_candidate :
    (s : Selection) (b : Backup)
    → IsCandidate b
    → (next : Backup) × ((consider s b).backup ≡ some next) × (is_newer b next ≡ false)
unfolding consider IsCandidate
consider_candidate s b (good, there) = elim (Bool-cases (completion b == 0)) [
  | inl missing ↦ absurd (ground arith)
  | inr complete ↦ elim (Option-cases s.backup) [
    | inl none_yet ↦ (b, rw (good, complete, none_yet) refl, is_newer-irreflexive b)
    | inr (current, e) ↦
        let (next, made, _, older) = better_lem current b in
        (next, rw (good, complete, e) made, older)
  ]
]

some_injective : {a b : Backup} → some a ≡ some b → a ≡ b
some_injective e = cc

not_newer_selected :
    (s : Selection) (backups : List Backup) (best : Backup)
    → (select_from s backups).backup ≡ some best
    → All (λ b. IsCandidate b → is_newer b best ≡ false) backups
unfolding select_from
not_newer_selected s [] best e = tt
not_newer_selected s (b ∷ backups) best e = (
  λ h.
      let (next, made, older) = consider_candidate s b h in
      let (last, found, grown) = select_from_grows (consider s b) backups next made in
      rw (some_injective (sym e ∙ found)) (not_newer-IsGrown b next last older grown),
  not_newer_selected (consider s b) backups best e,
)

consider_member :
    (s : Selection) (b best : Backup)
    → (consider s b).backup ≡ some best
    → (s.backup ≡ some best) ⊎ ((b ≡ best) × IsCandidate b)
unfolding consider IsCandidate
consider_member s b best e = elim (Bool-cases (has_succeeded b)) [
  | inr bad ↦ inl (rw bad at e)
  | inl good ↦ elim (Bool-cases (completion b == 0)) [
    | inl missing ↦ inl (rw (good, missing) at e)
    | inr complete ↦ elim (Option-cases s.backup) [
      | inl none_yet ↦
          inr (some_injective (rw (good, complete, none_yet) at e), (good, ground arith))
      | inr (current, there) ↦ elim (Bool-cases (is_newer b current)) [
        | inl newer ↦
            inr (some_injective (rw (good, complete, there, newer) at e), (good, ground arith))
        | inr older ↦ inl (there ∙ (rw (good, complete, there, older) at e))
      ]
    ]
  ]
]

selected_member :
    (s : Selection) (backups : List Backup) (best : Backup)
    → (select_from s backups).backup ≡ some best
    → (s.backup ≡ some best) ⊎ Any (λ b. (b ≡ best) × IsCandidate b) backups
unfolding select_from
selected_member s [] best e = inl e
selected_member s (b ∷ backups) best e = elim (selected_member (consider s b) backups best e) [
  | inr later ↦ inr (inr later)
  | inl now ↦ elim (consider_member s b best now) [
    | inl before ↦ inl before
    | inr this ↦ inr (inl this)
  ]
]

-- The first backup completed later than the second; or at the same time, and it was created later; or that
-- too, and its name is not after the other's.
abbrev pub IsNewest : Backup → Backup → Type 0
IsNewest best b =
    (completion b < completion best)
    ⊎ ((completion b ≡ completion best)
        × ((b.created < best.created) ⊎ ((b.created ≡ best.created) × ComesFirst best.name b.name)))

not_newer-IsNewest : (b best : Backup) → is_newer b best ≡ false → IsNewest best b
unfolding is_newer
not_newer-IsNewest b best h = let name = text_lt-ComesFirst b.name best.name in ground arith

candidates-IsNewest :
    (best : Backup) (backups : List Backup)
    → All (λ b. IsCandidate b → is_newer b best ≡ false) backups
    → All (λ b. IsCandidate b → IsNewest best b) backups
candidates-IsNewest best [] h = tt
candidates-IsNewest best (b ∷ backups) h =
    (λ c. not_newer-IsNewest b best (h.0 c), candidates-IsNewest best backups h.1)

-- The backup that `LatestSucceeded` selects is one of the listed ones, succeeded and with a completion
-- time, and each other such backup completed earlier, or at the same time and was created earlier, or both
-- at the same time and has a name that is not in front; where it selects none, there is no such backup.
pub latest_succeeded-IsNewest :
    (backups : List Backup)
    → ((best : Backup)
        → (latest_succeeded backups).backup ≡ some best
        → Any (λ b. (b ≡ best) × IsCandidate b) backups
          × All (λ b. IsCandidate b → IsNewest best b) backups)
      × ((latest_succeeded backups).backup ≡ none → All (λ b. ¬ IsCandidate b) backups)
unfolding latest_succeeded select_from
latest_succeeded-IsNewest backups = (
  λ best e. (
    elim (selected_member nothing backups best e) [ inl bad ↦ absurd (cc) | inr good ↦ good ],
    candidates-IsNewest best backups (not_newer_selected nothing backups best e),
  ),
  none_left nothing backups,
)
  where
    nothing : Selection
    nothing = record { backup = none; succeeded = 0; missing_completion = 0 }

    none_left :
        (s : Selection) (backups : List Backup)
        → (select_from s backups).backup ≡ none
        → All (λ b. ¬ IsCandidate b) backups
    none_left s [] e = tt
    none_left s (b ∷ backups) e = (
      λ h.
          let (next, made, _) = consider_candidate s b h in
          let (last, found, _) = select_from_grows (consider s b) backups next made in absurd (cc),
      none_left (consider s b) backups e,
    )
