-- ===== src/Strategy/Complete.antt =====
-- `Generate` on a compiled column, over all its branches.
use pxc_anonymizer.Prelude.{
  ℕ, zero, suc, String, ◌≡◌, ◌≢◌, refl, Bool, true, false, Option, none, some, List, [], ◌∷◌, ◌++◌,
  text_eq, length, nat_eq, codes, arith, leb, if◌then◌else◌,
}
use pxc_anonymizer.Prelude.Int.{ℤ}
use pxc_anonymizer.Sql.{Value}
use pxc_anonymizer.Strategy.Params.{Kind, Params, Parsers}
use pxc_anonymizer.Strategy.Compile.{Column}
use pxc_anonymizer.Strategy.Ready.{IsReady}
use pxc_anonymizer.Strategy.Slices.{slice-some, slice_start, mask_text_total}
use pxc_anonymizer.Strategy.Generate.{
  Library, Output, null_output, text_output, number_output, failed, panicked, is_null, is_empty,
  input_text, constant_output, generate, produced, value_hash, Origin, from_digest, mask_output,
  digest_of, base_payload,
}
use pxc_anonymizer.Strategy.Total.{output_length, IsLibrary, Fits, failed-Fits, generate_text-Fits}
use pxc_anonymizer.Strategy.Ready.{compile-IsReady}
use pxc_anonymizer.Strategy.Compile.{Rule, Defaults, compile}
use pxc_anonymizer.Errors.{ok}

Fits-total : (n : Option ℤ) (o : Output) → Fits n o → o ≢ panicked
unfolding Fits
Fits-total n null_output f = λ e. cc
Fits-total n (text_output s) f = λ e. cc
Fits-total n (number_output z) f = λ e. cc
Fits-total n (failed m) f = λ e. cc
Fits-total n panicked f = absurd f

refused-Fits :
    (b : Bool) (m : String) (n : Option ℤ) (o : Output)
    → Fits n o
    → Fits n (if b then failed m else o)
refused-Fits true m n o f = failed-Fits n m
refused-Fits false m n o f = f

module _ {S : Type 0} (L : Library S) (is : IsLibrary L) where
  length-value_hash :
      (key : List ℕ) (c : Column) (v : List ℕ) (row : Origin) (retry : ℕ) (h : List ℕ)
      → value_hash L key c v row retry ≡ some h
      → length h ≡ 32
  unfolding value_hash
  length-value_hash key c v row retry h e = sized retry (base_payload L c v row) e
    where
      sized :
          (retry : ℕ) (payload : Option (List ℕ))
          → digest_of L key retry payload ≡ some h
          → length h ≡ 32
      sized retry none e = absurd (cc)
      sized zero (some m) e = ground (arith, is.length-hmac key m)
      sized (suc n) (some m) e = ground (
        arith,
        is.length-hmac key (codes "pxc-anonymizer/unique-retry/" ++ (L.hmac key m ++ (suc n ∷ []))),
      )

  from_digest-Fits :
      (P : Parsers) (today : ℤ) (c : Column) (o : Option (List ℕ))
      → IsReady P c.strategy c.params
      → ((h : List ℕ) → o ≡ some h → length h ≡ 32)
      → Fits (output_length c.strategy c.params) (from_digest L P today c o)
  from_digest-Fits P today c none r full = failed-Fits (output_length c.strategy c.params) _
  from_digest-Fits P today c (some h) r full =
      let size = full h refl in
      rw
        (
          slice_start 8 h (omega (arith, size)),
          slice-some 8 16 h (omega arith) (omega (arith, size)),
        )
        (generate_text-Fits L is P today c.strategy c.params h _ size r)

  mask-Fits :
      (P : Parsers) (p : Params) (v : List ℕ)
      → IsReady P Kind.mask p
      → Fits none (mask_output L p v)
  unfolding IsReady Fits
  mask-Fits P p v ((a, e, _, _), (b, f, _, _), _) =
      let (s, made) = mask_text_total a b (codes p.mask_char) v in rw (e, f, made) tt

  constant-Fits : (o : Option String) → Fits none (constant_output L o)
  unfolding Fits
  constant-Fits none = tt
  constant-Fits (some s) = tt

  produced-Fits :
      (P : Parsers) (today : ℤ) (key : List ℕ) (c : Column) (v : List ℕ) (row : Origin) (retry : ℕ)
      → (k : Kind) → c.strategy ≡ k
      → IsReady P c.strategy c.params
      → Fits (output_length c.strategy c.params) (produced L P today key c k v row retry)
  unfolding produced
  produced-Fits P today key c v row retry Kind.null e r = rw e (unfold output_length Fits in tt)
  produced-Fits P today key c v row retry Kind.constant e r =
      rw e (unfold output_length in constant-Fits c.constant)
  produced-Fits P today key c v row retry Kind.mask e r =
      rw e (unfold output_length in mask-Fits P c.params v (rw e at r))
  produced-Fits P today key c v row retry _ e r =
      from_digest-Fits P today c (value_hash L key c v row retry) r
        (length-value_hash key c v row retry)

  module _ (P : Parsers) (r : Rule) (d : Defaults) (resolved : Option String) (c : Column) where
    -- `Generate` on a compiled column never panics: no nil parameter is read, no slice is out of
    -- bounds, no count is negative and no number is divided by zero, whatever the input,
    -- the row and the retry, provided that the other libraries keep their formats.
    pub generate_total :
        (today : ℤ) (key : List ℕ) (input : Value) (row : Origin) (retry : ℕ)
        → compile P r d resolved ≡ ok c
        → generate L P today key c input row retry ≢ panicked
    unfolding generate
    generate_total today key input row retry e =
        let made =
          Fits-total (output_length c.strategy c.params)
            (produced L P today key c c.strategy (input_text L input) row retry)
            (produced-Fits P today key c (input_text L input) row retry c.strategy refl
              (compile-IsReady P r d resolved c e)) in
        ground arith

    -- For an input that is neither NULL nor empty, `Generate` on a compiled column for which
    -- `OutputLength` announces a length returns an error or a text of exactly that length.
    pub generate-Fits :
        (today : ℤ) (key : List ℕ) (input : Value) (row : Origin) (retry : ℕ)
        → compile P r d resolved ≡ ok c
        → is_null input ≡ false
        → is_empty (input_text L input) ≡ false
        → Fits (output_length c.strategy c.params) (generate L P today key c input row retry)
    unfolding generate
    generate-Fits today key input row retry e there full =
        let made =
          produced-Fits P today key c (input_text L input) row retry c.strategy refl
            (compile-IsReady P r d resolved c e) in
        rw (there, full) (refused-Fits (leb 8 retry) _ _ _ made)
