-- ===== src/Tests/Formats.antt =====
-- A lossless text format for cursors: every number is shifted up by one, and 0 ends a text.
use pxc_anonymizer.Prelude.{
  ℕ, zero, suc, ◌+◌, ◌≡◌, refl, ap, ◌∙◌, arith, Option, none, some, List, [], ◌∷◌, ◌++◌,
}
use pxc_anonymizer.Checkpoint.Cursor.{Tagged, Formats}
use pxc_anonymizer.Checkpoint.RoundTrip.{IsLossless, IsAscii}

abbrev marked : List ℕ → List ℕ → List ℕ
marked [] rest = 0 ∷ rest
marked (n ∷ ns) rest = suc n ∷ marked ns rest

abbrev marked_all : List Tagged → List ℕ
marked_all [] = []
marked_all (t ∷ ts) = marked t.type (marked t.payload (marked_all ts))

-- The texts of a marked list, from the part of a text that was read.
abbrev texts : List ℕ → List ℕ → List (List ℕ)
texts read [] = []
texts read (zero ∷ rest) = read ∷ texts [] rest
texts read (suc n ∷ rest) = texts (read ++ (n ∷ [])) rest

abbrev paired : List (List ℕ) → List Tagged
paired [] = []
paired (t ∷ []) = []
paired (t ∷ p ∷ rest) = record { type = t; payload = p } ∷ paired rest

abbrev unmarked : List ℕ → Option (List Tagged)
unmarked [] = none
unmarked (n ∷ s) = some (paired (texts [] s))

-- A number as that many ones and a zero.
abbrev unary_of : ℕ → List ℕ → List ℕ
unary_of zero rest = 0 ∷ rest
unary_of (suc n) rest = 1 ∷ unary_of n rest

abbrev unary : List ℕ → List ℕ
unary [] = []
unary (n ∷ ns) = unary_of n (unary ns)

-- The numbers of such a text, from the ones that were read.
abbrev numbers : ℕ → List ℕ → List ℕ
numbers read [] = []
numbers read (zero ∷ rest) = read ∷ numbers 0 rest
numbers read (suc n ∷ rest) = numbers (suc read) rest

abbrev pub plain_formats : Formats
plain_formats = record {
  marshal = λ ts. 0 ∷ marked_all ts;
  unmarshal = unmarked;
  encode_base64 = unary;
  decode_base64 = λ b. some (numbers 0 b);
  parse_float = λ s. some s;
  parse_time = λ s. some s;
}

append-snoc : (xs : List ℕ) (n : ℕ) (ys : List ℕ) → (xs ++ (n ∷ [])) ++ ys ≡ xs ++ (n ∷ ys)
append-snoc [] n ys = refl
append-snoc (x ∷ xs) n ys = rw (append-snoc xs n ys)

append-nil' : (xs : List ℕ) → xs ++ [] ≡ xs
append-nil' [] = refl
append-nil' (x ∷ xs) = rw (append-nil' xs)

texts-marked : (read ns rest : List ℕ) → texts read (marked ns rest) ≡ (read ++ ns) ∷ texts [] rest
texts-marked read [] rest = rw (append-nil' read)
texts-marked read (n ∷ ns) rest =
    rw (texts-marked (read ++ (n ∷ [])) ns rest, append-snoc read n ns)

paired-texts : (ts : List Tagged) → paired (texts [] (marked_all ts)) ≡ ts
paired-texts [] = refl
paired-texts (t ∷ ts) = rw (texts-marked [] t.type, texts-marked [] t.payload, paired-texts ts)

numbers-unary_of :
    (read n : ℕ) (rest : List ℕ) → numbers read (unary_of n rest) ≡ (read + n) ∷ numbers 0 rest
numbers-unary_of read zero rest =
    let same : read ≡ read + 0 = omega arith in ap (λ k. k ∷ numbers 0 rest) same
numbers-unary_of read (suc n) rest =
    let same : suc read + n ≡ read + suc n = omega arith in
    numbers-unary_of (suc read) n rest ∙ ap (λ k. k ∷ numbers 0 rest) same

numbers-unary : (ns : List ℕ) → numbers 0 (unary ns) ≡ ns
numbers-unary [] = refl
numbers-unary (n ∷ ns) =
    let same : 0 + n ≡ n = omega arith in
    rw (numbers-unary_of 0 n (unary ns), numbers-unary ns, same) refl

unary_of-IsAscii : (n : ℕ) (rest : List ℕ) → IsAscii rest → IsAscii (unary_of n rest)
unary_of-IsAscii zero rest h = (omega arith, h)
unary_of-IsAscii (suc n) rest h = (omega arith, unary_of-IsAscii n rest h)

unary-IsAscii : (ns : List ℕ) → IsAscii (unary ns)
unary-IsAscii [] = tt
unary-IsAscii (n ∷ ns) = unary_of-IsAscii n (unary ns) (unary-IsAscii ns)

pub plain_formats-IsLossless : IsLossless plain_formats
plain_formats-IsLossless = record {
  unmarshal-marshal = λ ts h. rw (paired-texts ts);
  marshal_nonempty = λ ts e. cc;
  decode-encode = λ b. ap some (numbers-unary b);
  encode_base64-IsAscii = unary-IsAscii;
}
