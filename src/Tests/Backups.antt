-- ===== src/Tests/Backups.antt =====
-- A list of backups in which the newest one stands in the middle.
use pxc_anonymizer.Prelude.{ℕ, ◌≡◌, refl, Option, none, some, List, [], ◌∷◌, All, Any}
use pxc_anonymizer.Backups.{Backup, latest_succeeded, select_from, consider, is_newer, text_lt}
use pxc_anonymizer.Backups.Newest.{IsNewest, IsCandidate, latest_succeeded-IsNewest}

abbrev backup : ℕ → Option ℕ → Backup
backup n completed = record {
  name = n ∷ [];
  created = n;
  state = "Succeeded";
  completed_at = completed;
}

abbrev backups : List Backup
backups = backup 1 (some 5) ∷ backup 2 (some 9) ∷ backup 3 none ∷ backup 4 (some 7) ∷ []

newest_selected : (latest_succeeded backups).backup ≡ some (backup 2 (some 9))
unfolding latest_succeeded select_from consider is_newer text_lt
newest_selected = refl

latest_succeeded-IsNewest_example :
    ((best : Backup)
      → (latest_succeeded backups).backup ≡ some best
      → Any (λ b. (b ≡ best) × IsCandidate b) backups
        × All (λ b. IsCandidate b → IsNewest best b) backups)
    × ((latest_succeeded backups).backup ≡ none → All (λ b. ¬ IsCandidate b) backups)
latest_succeeded-IsNewest_example = latest_succeeded-IsNewest backups
