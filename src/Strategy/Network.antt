-- ===== src/Strategy/Network.antt =====
-- Public IPv4 addresses (`publicIPv4` of internal/runner/strategy/generate.go).
use pxc_anonymizer.Prelude.{
  ℕ, zero, suc, ◌-◌, ◌/◌, ◌%◌, ◌*◌, ◌+◌, ◌^◌, Bool, false, ◌||◌, Option, none, some, List, [], ◌∷◌,
  ◌++◌, ◌==◌, nat_eq, if◌then◌else◌,
}
use pxc_anonymizer.Prelude.Decimal.{show}

-- A prefix: its address and the number of its bits.
abbrev prefix : ℕ → ℕ → ℕ → ℕ → ℕ → ℕ × ℕ
prefix a b c d bits = (((a * 256 + b) * 256 + c) * 256 + d, bits)

-- `reservedIPv4`.
abbrev pub reserved_ipv4 : List (ℕ × ℕ)
reserved_ipv4 =
    prefix 0 0 0 0 8
    ∷ prefix 10 0 0 0 8
    ∷ prefix 100 64 0 0 10
    ∷ prefix 127 0 0 0 8
    ∷ prefix 169 254 0 0 16
    ∷ prefix 172 16 0 0 12
    ∷ prefix 192 0 0 0 24
    ∷ prefix 192 0 2 0 24
    ∷ prefix 192 88 99 0 24
    ∷ prefix 192 168 0 0 16
    ∷ prefix 198 18 0 0 15
    ∷ prefix 198 51 100 0 24
    ∷ prefix 203 0 113 0 24
    ∷ prefix 224 0 0 0 4
    ∷ prefix 240 0 0 0 4
    ∷ []

-- `Prefix.Contains`.
abbrev pub in_prefix : ℕ → ℕ × ℕ → Bool
in_prefix a p = a / 2 ^ (32 - p.1) == p.0 / 2 ^ (32 - p.1)

unfoldable pub is_reserved : ℕ → List (ℕ × ℕ) → Bool
is_reserved a [] = false
is_reserved a (p ∷ ps) = in_prefix a p || is_reserved a ps

-- `Addr.String`.
unfoldable pub dotted : ℕ → List ℕ
dotted a =
    show (a / 2 ^ 24 % 256)
    ++ (b'.' ∷ show (a / 2 ^ 16 % 256)
        ++ (b'.' ∷ show (a / 2 ^ 8 % 256) ++ (b'.' ∷ show (a % 256))))

-- The loop of `publicIPv4` with the rounds that are left, 128 at the start.
unfoldable pub public_ipv4 : {S : Type 0} → (S → ℕ × S) → ℕ → S → Option (List ℕ)
public_ipv4 uint32 zero s = none
public_ipv4 uint32 (suc left) s =
    let rest = public_ipv4 uint32 left (uint32 s).1 in
    if is_reserved ((uint32 s).0 % 2 ^ 32) reserved_ipv4
    then rest
    else some (dotted ((uint32 s).0 % 2 ^ 32))
