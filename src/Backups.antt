-- ===== src/Backups.antt =====
-- The selection of the backup to restore from (internal/pxc/select.go, internal/pxc/states.go).
pub mod Order
pub mod Newest
use pxc_anonymizer.Prelude.{
  ℕ, zero, suc, ◌+◌, String, Bool, true, false, Option, none, some, List, [], ◌∷◌, ◌==◌, text_eq,
  nat_eq, ltb, if◌then◌else◌,
}

-- The fields of `BackupView` that are read here. A time is the nanoseconds since the year 1, so that
-- 0 is the zero time; a name is the list of its bytes.
pub record Backup : Type 0 where
  pub name : List ℕ
  pub created : ℕ
  pub state : String
  pub completed_at : Option ℕ

-- `BackupSelection`.
pub record Selection : Type 0 where
  pub backup : Option Backup
  pub succeeded : ℕ
  pub missing_completion : ℕ

abbrev pub has_succeeded : Backup → Bool
has_succeeded b = b.state == "Succeeded"

-- Go's order of strings.
unfoldable pub text_lt : List ℕ → List ℕ → Bool
text_lt s [] = false
text_lt [] (b ∷ t) = true
text_lt (a ∷ s) (b ∷ t) =
    let rest = text_lt s t in if ltb a b then true else if a == b then rest else false

-- The completion time of a backup that has one; no other is compared.
abbrev pub completion : Backup → ℕ
completion b = elim b.completed_at [ none ↦ 0 | some t ↦ t ]

-- `newerBackup`.
unfoldable pub is_newer : Backup → Backup → Bool
is_newer candidate current =
    if ltb (completion current) (completion candidate)
    then true
    else if ltb (completion candidate) (completion current)
    then false
    else if ltb current.created candidate.created
    then true
    else if ltb candidate.created current.created
    then false
    else text_lt candidate.name current.name

-- The selected backup after a candidate.
abbrev pub better : Option Backup → Backup → Option Backup
better none candidate = some candidate
better (some current) candidate = some (if is_newer candidate current then candidate else current)

-- The body of the loop.
unfoldable pub consider : Selection → Backup → Selection
consider s b =
    if has_succeeded b
    then (if completion b == 0
        then record s { succeeded = suc s.succeeded; missing_completion = suc s.missing_completion }
        else record s { succeeded = suc s.succeeded; backup = better s.backup b })
    else s

unfoldable pub select_from : Selection → List Backup → Selection
select_from s [] = s
select_from s (b ∷ backups) = select_from (consider s b) backups

-- `LatestSucceeded`.
unfoldable pub latest_succeeded : List Backup → Selection
latest_succeeded backups =
    select_from (record { backup = none; succeeded = 0; missing_completion = 0 }) backups
