-- ===== src/Strategy/Consistency.antt =====
-- What the pseudonyms of a consistent column depend on.
use pxc_anonymizer.Prelude.{ℕ, ◌≡◌, ◌≢◌, refl, true, false, List, text_eq, nat_eq}
use pxc_anonymizer.Prelude.Int.{ℤ}
use pxc_anonymizer.Sql.{Value}
use pxc_anonymizer.Strategy.Params.{Kind, Parsers}
use pxc_anonymizer.Strategy.Compile.{Column}
use pxc_anonymizer.Strategy.Generate.{
  Library, Origin, generate, produced, value_hash, base_payload, normalized, input_text, is_null,
  is_empty,
}

module _ {S : Type 0} (L : Library S) where
  value_hash-congruent :
      (key : List ℕ) (c : Column) (v w : List ℕ) (row row' : Origin) (retry : ℕ)
      → c.consistent ≡ true
      → normalized L c.strategy v ≡ normalized L c.strategy w
      → value_hash L key c v row retry ≡ value_hash L key c w row' retry
  unfolding value_hash base_payload
  value_hash-congruent key c v w row row' retry e same = rw (e, same) refl

  produced-congruent :
      (P : Parsers) (today : ℤ) (key : List ℕ) (c : Column) (k : Kind) (v w : List ℕ)
      (row row' : Origin) (retry : ℕ)
      → k ≢ Kind.mask
      → value_hash L key c v row retry ≡ value_hash L key c w row' retry
      → produced L P today key c k v row retry ≡ produced L P today key c k w row' retry
  unfolding produced
  produced-congruent P today key c Kind.null v w row row' retry m same = refl
  produced-congruent P today key c Kind.constant v w row row' retry m same = refl
  produced-congruent P today key c Kind.mask v w row row' retry m same = absurd (m refl)
  produced-congruent P today key c _ v w row row' retry m same = rw same refl

  -- Two values that a consistent column reads as the same normalized text, neither NULL nor empty,
  -- have the same pseudonym for a given retry, in whatever rows, columns and tables they
  -- stand, for every strategy but `mask`, which reads the value itself.
  pub generate_consistent :
      (P : Parsers) (today : ℤ) (key : List ℕ) (c : Column) (input other : Value)
      (row row' : Origin) (retry : ℕ)
      → c.consistent ≡ true
      → c.strategy ≢ Kind.mask
      → is_null input ≡ false
      → is_null other ≡ false
      → is_empty (input_text L input) ≡ false
      → is_empty (input_text L other) ≡ false
      → normalized L c.strategy (input_text L input) ≡ normalized L c.strategy (input_text L other)
      → generate L P today key c input row retry ≡ generate L P today key c other row' retry
  unfolding generate
  generate_consistent P today key c input other row row' retry e m n n' f f' same =
      rw
        (
          n,
          n',
          f,
          f',
          produced-congruent P today key c c.strategy (input_text L input) (input_text L other) row
              row' retry m
              (value_hash-congruent key c (input_text L input) (input_text L other) row row' retry e
                same),
        )
        refl
