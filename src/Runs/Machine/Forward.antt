-- ===== src/Runs/Machine/Forward.antt =====
-- The order of the phases of a run, and its histories.
use pxc_anonymizer.Prelude.{ℕ, ◌<◌, String, ◌≡◌, refl, ◌∙◌, ◌⊎◌, inl, inr, Bool, arith}
use pxc_anonymizer.Runs.{
  Phase, unset, pending, resolving_source, provisioning, restoring, anonymizing, backing_up,
  publishing, pruning, cleaning_up, completed, failed, unknown, Status, Env,
}
use pxc_anonymizer.Runs.Machine.{
  IsLive, Edge, stay, begin, resolve, resolve_source, restore, anonymize, backup, skip_backup,
  publish, prune, clean, complete, give_up, Steps, at_once, and_then, IsLocked,
}
use pxc_anonymizer.Runs.Machine.Budget.{History, History-Steps}
use pxc_anonymizer.Runs.Machine.Refinement.{IsFrozen}

-- How many phases are ahead at most.
abbrev pub rank : Phase → ℕ
rank unset = 10
rank pending = 9
rank resolving_source = 9
rank provisioning = 8
rank restoring = 7
rank anonymizing = 6
rank backing_up = 5
rank publishing = 4
rank pruning = 3
rank cleaning_up = 2
rank unknown = 2
rank completed = 1
rank failed = 1

-- The same phase, or one with a smaller rank.
abbrev pub IsOnward : Phase → Phase → Type 0
IsOnward p q = (q ≡ p) ⊎ (rank q < rank p)

edge-IsOnward : {p q : Phase} → Edge p q → IsOnward p q
edge-IsOnward (stay p) = inl refl
edge-IsOnward begin = inr (omega arith)
edge-IsOnward resolve = inr (omega arith)
edge-IsOnward resolve_source = inr (omega arith)
edge-IsOnward restore = inr (omega arith)
edge-IsOnward anonymize = inr (omega arith)
edge-IsOnward backup = inr (omega arith)
edge-IsOnward skip_backup = inr (omega arith)
edge-IsOnward publish = inr (omega arith)
edge-IsOnward prune = inr (omega arith)
edge-IsOnward clean = inr (omega arith)
edge-IsOnward complete = inr (omega arith)
edge-IsOnward (give_up p live) = failing p live
  where
    failing : (p : Phase) → IsLive p → IsOnward p failed
    failing unset live = absurd live
    failing completed live = absurd live
    failing failed live = inl refl
    failing p live = inr (omega arith)

IsOnward-trans : {p q s : Phase} → IsOnward p q → IsOnward q s → IsOnward p s
IsOnward-trans (inl e) (inl f) = inl (f ∙ e)
IsOnward-trans (inl e) (inr f) = inr (rw⁻¹ e f)
IsOnward-trans (inr e) (inl f) = inr (rw f e)
IsOnward-trans (inr e) (inr f) = inr (omega arith)

steps-IsOnward :
    {K : Type 0} {limit : ℕ} {s t : Status K} → Steps limit s t → IsOnward s.phase t.phase
steps-IsOnward at_once = inl refl
steps-IsOnward (and_then p (edge, step)) = IsOnward-trans (steps-IsOnward p) (edge-IsOnward edge)

-- However often a run is reconciled, its phase stays or comes nearer to the end, of which it has at most
-- ten steps. So a run that has completed or failed stays so.
pub History-IsOnward :
    {C K : Type 0} {E : ℕ → Env C K} {stored : C → Status K} {before : String → String → Bool}
    {c d : C} (L : (time : ℕ) → IsLocked (E time) stored) (limit : ℕ)
    → ((time : ℕ) → IsFrozen (L time) limit before)
    → History E stored before c d
    → IsOnward (stored c).phase (stored d).phase
History-IsOnward L limit frozen h = steps-IsOnward (History-Steps L limit frozen h)
