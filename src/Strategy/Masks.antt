-- ===== src/Strategy/Masks.antt =====
-- What a mask shows, and what an email address and a public address look like.
use pxc_anonymizer.Prelude.{
  ℕ, zero, suc, ◌+◌, ◌-◌, ◌*◌, ◌%◌, ◌^◌, ◌≤◌, ◌<◌, ◌≡◌, refl, false, nat_eq, some, List, ◌++◌,
  length, length-append, length-take, length-drop, take, drop, arith, Bool-cases, inl, inr, ◌⊎◌,
}
use pxc_anonymizer.Strategy.Texts.{repeated, shows_all, masked}
use pxc_anonymizer.Strategy.Slices.{masked-some}
use pxc_anonymizer.Strategy.Network.{public_ipv4, is_reserved, reserved_ipv4, dotted}

length-repeated : (n : ℕ) (s : List ℕ) → length s ≡ 1 → length (repeated n s) ≡ n
unfolding repeated
length-repeated zero s h = refl
length-repeated (suc n) s h = omega (arith, length-append s (repeated n s), length-repeated n s h)

-- Where the kept ends do not cover the value, the masking does not panic, and the masked runes are as many
-- as those of the value: its first `prefix` runes, mask characters, and its last `suffix` runes.
pub masked_lem :
    (prefix suffix : ℕ) (char s : List ℕ)
    → length char ≡ 1
    → shows_all prefix suffix s ≡ false
    → (m : List ℕ) × (masked prefix suffix char s ≡ some m)
      × (length m ≡ length s)
      × (m
          ≡ take prefix s
            ++ (repeated (length s - prefix - suffix) char ++ drop (length s - suffix) s))
      × (prefix + suffix < length s)
masked_lem prefix suffix char s single hidden =
    let short : prefix + suffix < length s = ground arith in
    (
      take prefix s ++ (repeated (length s - prefix - suffix) char ++ drop (length s - suffix) s),
      masked-some prefix suffix char s short,
      omega (
        arith,
        length-append (take prefix s)
            (repeated (length s - prefix - suffix) char ++ drop (length s - suffix) s),
        length-append (repeated (length s - prefix - suffix) char) (drop (length s - suffix) s),
        length-take prefix s,
        length-drop (length s - suffix) s,
        length-repeated (length s - prefix - suffix) char single,
      ),
      refl,
      short,
    )

-- An address outside the ranges that are registered for this network, private use, shared address space,
-- loopback, link-local use, protocol assignments, documentation (three), relays from 6to4, benchmarks,
-- multicast and future use.
pub IsPublic : ℕ → Type 0
IsPublic n =
    (2 ^ 24 ≤ n)
    × (n < 224 * 2 ^ 24)
    × ((n < 10 * 2 ^ 24) ⊎ (11 * 2 ^ 24 ≤ n))
    × ((n < 127 * 2 ^ 24) ⊎ (128 * 2 ^ 24 ≤ n))
    × ((n < 100 * 2 ^ 24 + 64 * 2 ^ 16) ⊎ (100 * 2 ^ 24 + 128 * 2 ^ 16 ≤ n))
    × ((n < 169 * 2 ^ 24 + 254 * 2 ^ 16) ⊎ (169 * 2 ^ 24 + 255 * 2 ^ 16 ≤ n))
    × ((n < 172 * 2 ^ 24 + 16 * 2 ^ 16) ⊎ (172 * 2 ^ 24 + 32 * 2 ^ 16 ≤ n))
    × ((n < 192 * 2 ^ 24) ⊎ (192 * 2 ^ 24 + 2 ^ 8 ≤ n))
    × ((n < 192 * 2 ^ 24 + 2 * 2 ^ 8) ⊎ (192 * 2 ^ 24 + 3 * 2 ^ 8 ≤ n))
    × ((n < 192 * 2 ^ 24 + 88 * 2 ^ 16 + 99 * 2 ^ 8)
        ⊎ (192 * 2 ^ 24 + 88 * 2 ^ 16 + 100 * 2 ^ 8 ≤ n))
    × ((n < 192 * 2 ^ 24 + 168 * 2 ^ 16) ⊎ (192 * 2 ^ 24 + 169 * 2 ^ 16 ≤ n))
    × ((n < 198 * 2 ^ 24 + 18 * 2 ^ 16) ⊎ (198 * 2 ^ 24 + 20 * 2 ^ 16 ≤ n))
    × ((n < 198 * 2 ^ 24 + 51 * 2 ^ 16 + 100 * 2 ^ 8)
        ⊎ (198 * 2 ^ 24 + 51 * 2 ^ 16 + 101 * 2 ^ 8 ≤ n))
    × ((n < 203 * 2 ^ 24 + 113 * 2 ^ 8) ⊎ (203 * 2 ^ 24 + 114 * 2 ^ 8 ≤ n))

is_reserved-IsPublic : (n : ℕ) → n < 2 ^ 32 → is_reserved n reserved_ipv4 ≡ false → IsPublic n
unfolding is_reserved IsPublic
is_reserved-IsPublic n h e = ground arith

-- An address that `publicIPv4` returns is the text of a number below 2 ^ 32 that is outside all fifteen
-- ranges that the registries keep for special purposes: this network, private use (three), shared, loopback,
-- link-local, protocol assignments, documentation (three), 6to4 relays, benchmarks, multicast and future use.
pub public_ipv4-IsPublic :
    {S : Type 0} (uint32 : S → ℕ × S) (rounds : ℕ) (s : S) (text : List ℕ)
    → public_ipv4 uint32 rounds s ≡ some text
    → (n : ℕ) × (text ≡ dotted n) × (n < 2 ^ 32) × IsPublic n
unfolding public_ipv4
public_ipv4-IsPublic uint32 zero s text e = absurd (cc)
public_ipv4-IsPublic uint32 (suc left) s text e =
    let n = (uint32 s).0 % 2 ^ 32 in
    elim (Bool-cases (is_reserved n reserved_ipv4)) [
      | inl reserved ↦ public_ipv4-IsPublic uint32 left (uint32 s).1 text (ground arith)
      | inr free ↦ (n, ground arith, omega arith, is_reserved-IsPublic n (omega arith) free)
    ]
