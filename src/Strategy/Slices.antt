-- ===== src/Strategy/Slices.antt =====
-- Slices within their bounds, and the ends that a mask keeps.
use pxc_anonymizer.Prelude.{
  ℕ, zero, suc, ◌+◌, ◌-◌, ◌≤◌, ◌<◌, ◌≡◌, refl, ap, ◌∙◌, true, false, some, List, [], ◌∷◌, ◌++◌,
  length, length-drop, take, drop, min, arith, leb, Bool-cases, inl, inr,
}
use pxc_anonymizer.Prelude.Int.{pos, ◌-ℤ◌}
use pxc_anonymizer.Strategy.Texts.{slice, repeated, masked, mask_text, shows_all}
use pxc_anonymizer.Strategy.Unicode.{runes}

pub slice-some :
    (low high : ℕ) (s : List ℕ)
    → low ≤ high
    → high ≤ length s
    → slice low high s ≡ some (take (high - low) (drop low s))
slice-some low high s h k =
    let a : leb low high ≡ true = ground arith in
    let b : leb high (length s) ≡ true = ground arith in rw (a, b) refl

pub slice_start : (high : ℕ) (s : List ℕ) → high ≤ length s → slice 0 high s ≡ some (take high s)
slice_start high s h =
    let e : high - 0 ≡ high = omega arith in
    slice-some 0 high s (omega arith) h ∙ ap (λ n. some (take n s)) e

difference : (a b : ℕ) → b ≤ a → pos a -ℤ pos b ≡ pos (a - b)
unfolding ◌-ℤ◌
difference a b h = ground arith

take_all : (n : ℕ) (s : List ℕ) → length s ≤ n → take n s ≡ s
take_all zero [] h = refl
take_all zero (c ∷ s) h = absurd (omega arith)
take_all (suc n) [] h = refl
take_all (suc n) (c ∷ s) h = ap (λ t. c ∷ t) (take_all n s (omega arith))

pub masked-some :
    (prefix suffix : ℕ) (char s : List ℕ)
    → prefix + suffix < length s
    → masked prefix suffix char s
      ≡ some (
          take prefix s
          ++ (repeated (length s - prefix - suffix) char ++ drop (length s - suffix) s))
unfolding masked
masked-some prefix suffix char s short =
    let a : min prefix (length s) ≡ prefix = omega arith in
    let b : min suffix (length s) ≡ suffix = omega arith in
    let d : pos (length s) -ℤ pos prefix -ℤ pos suffix ≡ pos (length s - prefix - suffix) =
      rw (difference (length s) prefix (omega arith))
        (difference (length s - prefix) suffix (omega arith)) in
    let e : pos (length s) -ℤ pos suffix ≡ pos (length s - suffix) =
      difference (length s) suffix (omega arith) in
    rw
      (
        a,
        b,
        d,
        e,
        slice_start prefix s (omega arith),
        slice-some (length s - suffix) (length s) s (omega arith) (omega arith),
        take_all (length s - (length s - suffix)) (drop (length s - suffix) s)
            (omega (arith, length-drop (length s - suffix) s)),
      )
      refl

-- A masking does not panic.
pub mask_text_total :
    (prefix suffix : ℕ) (char value : List ℕ)
    → (s : List ℕ) × (mask_text prefix suffix char value ≡ some s)
unfolding mask_text
mask_text_total prefix suffix char value =
    elim (Bool-cases (shows_all prefix suffix (runes value))) [
      | inl all ↦ rw all (value, refl)
      | inr hidden ↦
          rw (hidden, masked-some prefix suffix char (runes value) (covered (runes value) hidden))
            (_, refl)
    ]
  where
    covered : (r : List ℕ) → shows_all prefix suffix r ≡ false → prefix + suffix < length r
    covered r hidden = ground arith
