-- ===== src/Backups/Order.antt =====
-- The order of names, as texts are compared.
use pxc_anonymizer.Prelude.{ℕ, ◌<◌, ◌≡◌, ◌⊎◌, false, List, [], ◌∷◌, arith}
use pxc_anonymizer.Backups.{text_lt}

-- The first name is the second one or is in front of it: the first byte in which they differ is smaller,
-- or there is none and the name ends.
unfoldable pub ComesFirst : List ℕ → List ℕ → Type 0
ComesFirst [] t = Unit
ComesFirst (a ∷ s) [] = ⊥
ComesFirst (a ∷ s) (b ∷ t) = (a < b) ⊎ ((a ≡ b) × ComesFirst s t)

pub text_lt-ComesFirst : (s t : List ℕ) → text_lt s t ≡ false → ComesFirst t s
unfolding text_lt ComesFirst
text_lt-ComesFirst s [] h = tt
text_lt-ComesFirst [] (b ∷ t) h = absurd (cc)
text_lt-ComesFirst (a ∷ s) (b ∷ t) h = let rest = text_lt-ComesFirst s t in ground arith
