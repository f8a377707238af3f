-- ===== src/Strategy/Unicode.antt =====
-- Go's conversions between a `string`, which is a list of bytes here, and its runes.
use pxc_anonymizer.Prelude.{
  ℕ, zero, suc, ◌+◌, ◌-◌, ◌*◌, ◌/◌, ◌%◌, Bool, ◌&&◌, List, [], ◌∷◌, ◌++◌, ◌==◌, nat_eq, ltb, leb,
  if◌then◌else◌,
}

abbrev pub utf8_rune : ℕ → List ℕ
utf8_rune c =
    if ltb c 128
    then c ∷ []
    else if ltb c 2048
    then (192 + c / 64) ∷ (128 + c % 64) ∷ []
    else if ltb c 65536
    then (224 + c / 4096) ∷ (128 + c / 64 % 64) ∷ (128 + c % 64) ∷ []
    else (240 + c / 262144) ∷ (128 + c / 4096 % 64) ∷ (128 + c / 64 % 64) ∷ (128 + c % 64) ∷ []

-- `string(runes)`.
unfoldable pub utf8 : List ℕ → List ℕ
utf8 [] = []
utf8 (c ∷ s) = utf8_rune c ++ utf8 s

abbrev is_between : ℕ → ℕ → ℕ → Bool
is_between low high b = leb low b && leb b high

-- The second byte that may follow a first one.
abbrev may_follow : ℕ → ℕ → Bool
may_follow a b =
    is_between (if a == 224 then 160 else if a == 240 then 144 else 128)
      (if a == 237 then 159 else if a == 244 then 143 else 191) b

-- The rune that begins with a byte, and the number of bytes after that one which belong to it; a
-- byte that begins no rune is U+FFFD.
decode_rune : ℕ → List ℕ → ℕ × ℕ
decode_rune a [] = (if ltb a 128 then a else 65533, 0)
decode_rune a (b ∷ []) =
    if ltb a 128
    then (a, 0)
    else if is_between 194 223 a && may_follow a b
    then ((a - 192) * 64 + (b - 128), 1)
    else (65533, 0)
decode_rune a (b ∷ c ∷ []) =
    if ltb a 128
    then (a, 0)
    else if is_between 194 223 a && may_follow a b
    then ((a - 192) * 64 + (b - 128), 1)
    else if is_between 224 239 a && may_follow a b && is_between 128 191 c
    then ((a - 224) * 4096 + (b - 128) * 64 + (c - 128), 2)
    else (65533, 0)
decode_rune a (b ∷ c ∷ d ∷ s) =
    if ltb a 128
    then (a, 0)
    else if is_between 194 223 a && may_follow a b
    then ((a - 192) * 64 + (b - 128), 1)
    else if is_between 224 239 a && may_follow a b && is_between 128 191 c
    then ((a - 224) * 4096 + (b - 128) * 64 + (c - 128), 2)
    else if is_between 240 244 a && may_follow a b && is_between 128 191 c && is_between 128 191 d
    then ((a - 240) * 262144 + (b - 128) * 4096 + (c - 128) * 64 + (d - 128), 3)
    else (65533, 0)

-- The runes after the given number of bytes.
runes_after : ℕ → List ℕ → List ℕ
unfolding decode_rune
runes_after k [] = []
runes_after zero (a ∷ s) = (decode_rune a s).0 ∷ runes_after (decode_rune a s).1 s
runes_after (suc k) (a ∷ s) = runes_after k s

-- `[]rune(s)`.
unfoldable pub runes : List ℕ → List ℕ
unfolding runes_after
runes s = runes_after 0 s
