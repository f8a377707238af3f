-- ===== src/Prelude/Decimal.antt =====
-- Decimal text of numbers, as `strconv`, `fmt` and `big.Int` write and read it. A text that a
-- program takes apart is the list of its bytes.
use pxc_anonymizer.Prelude.{
  ℕ, zero, suc, ◌+◌, ◌-◌, ◌*◌, ◌/◌, ◌%◌, ◌^◌, ◌<◌, ◌≤◌, ◌≡◌, refl, ◌≢◌, ◌∙◌, String, ◌<>◌, Bool,
  true, ◌&&◌, Option, none, some, List, [], ◌∷◌, ◌++◌, arith, ltb, leb, if◌then◌else◌, Bool-cases,
  inl, inr, length, length-append, replicate, sym, All, All-append,
}
use native.Mathlib.Nat.{pow-suc}

-- One digit as a text, for messages; any number from 9 on is written `9`.
abbrev digit_text : ℕ → String
digit_text zero = "0"
digit_text (suc zero) = "1"
digit_text (suc (suc zero)) = "2"
digit_text (suc (suc (suc zero))) = "3"
digit_text (suc (suc (suc (suc zero)))) = "4"
digit_text (suc (suc (suc (suc (suc zero))))) = "5"
digit_text (suc (suc (suc (suc (suc (suc zero)))))) = "6"
digit_text (suc (suc (suc (suc (suc (suc (suc zero))))))) = "7"
digit_text (suc (suc (suc (suc (suc (suc (suc (suc zero)))))))) = "8"
digit_text (suc (suc (suc (suc (suc (suc (suc (suc (suc n))))))))) = "9"

-- The number behind `%d` in a message.
unfoldable pub show_text_fuel : ℕ → ℕ → String
show_text_fuel zero n = ""
show_text_fuel (suc f) n =
    let front = show_text_fuel f (n / 10) in
    if ltb n 10 then digit_text n else front <> digit_text (n % 10)

unfoldable pub show_text : ℕ → String
unfolding show_text_fuel
show_text n = show_text_fuel (suc n) n

show_fuel : ℕ → ℕ → List ℕ
show_fuel zero n = []
show_fuel (suc f) n =
    let front = show_fuel f (n / 10) in
    if ltb n 10 then (48 + n) ∷ [] else front ++ ((48 + n % 10) ∷ [])

-- The bytes of `strconv.FormatUint(n, 10)`. A number has at most as many digits as its successor.
unfoldable pub show : ℕ → List ℕ
unfolding show_fuel
show n = show_fuel (suc n) n

abbrev pub is_digit : ℕ → Bool
is_digit c = leb 48 c && leb c 57

-- The value of a run of digits read after digits with the value `acc`.
unfoldable pub read_from : ℕ → List ℕ → Option ℕ
read_from acc [] = some acc
read_from acc (c ∷ s) =
    let rest = read_from (acc * 10 + (c - 48)) s in if is_digit c then rest else none

-- A nonempty run of decimal digits.
unfoldable pub read : List ℕ → Option ℕ
unfolding read_from
read [] = none
read (c ∷ s) = read_from 0 (c ∷ s)

read_from-append :
    (acc : ℕ) (s : List ℕ) (d n : ℕ)
    → d < 10
    → read_from acc s ≡ some n
    → read_from acc (s ++ ((48 + d) ∷ [])) ≡ some (n * 10 + d)
unfolding read_from
read_from-append acc [] d n h e = ground arith
read_from-append acc (c ∷ s) d n h e =
    ground (arith, read_from-append (acc * 10 + (c - 48)) s d n h)

read_from-show_fuel : (f n : ℕ) → n < f → read_from 0 (show_fuel f n) ≡ some n
unfolding show_fuel read_from
read_from-show_fuel zero n h = absurd (omega arith)
read_from-show_fuel (suc f) n h = elim (Bool-cases (ltb n 10)) [
  | inl small ↦ rw small (ground arith)
  | inr large ↦ rw large (
      ground (
        arith,
        read_from-append 0 (show_fuel f (n / 10)) (n % 10) (n / 10) (omega arith)
            (read_from-show_fuel f (n / 10) (ground arith)),
      ))
]

append-ne-nil : (c : ℕ) (s : List ℕ) → s ++ (c ∷ []) ≢ []
append-ne-nil c [] = λ e. cc
append-ne-nil c (x ∷ s) = λ e. cc

show_fuel-cons : (f n : ℕ) → show_fuel (suc f) n ≢ []
unfolding show_fuel
show_fuel-cons f n = elim (Bool-cases (ltb n 10)) [
  | inl small ↦ rw small (λ e. cc)
  | inr large ↦ rw large (append-ne-nil _ (show_fuel f (n / 10)))
]

pub read_of_cons : (s : List ℕ) → s ≢ [] → read s ≡ read_from 0 s
unfolding read
read_of_cons [] h = absurd (h refl)
read_of_cons (c ∷ s) h = refl

-- What is written is read back.
pub read-show : (n : ℕ) → read (show n) ≡ some n
unfolding show
read-show n =
    read_of_cons (show_fuel (suc n) n) (show_fuel-cons n n)
    ∙ read_from-show_fuel (suc n) n (omega arith)

length-show_fuel : (f n k : ℕ) → n < f → n < 10 ^ suc k → length (show_fuel f n) ≤ suc k
unfolding show_fuel
length-show_fuel zero n k h b = absurd (omega arith)
length-show_fuel (suc f) n zero h b = ground arith
length-show_fuel (suc f) n (suc k) h b = elim (Bool-cases (ltb n 10)) [
  | inl small ↦ rw small (omega arith)
  | inr large ↦
      rw (large, length-append)
        (omega
          (arith, length-show_fuel f (n / 10) k (ground arith) (omega (arith, pow-suc 10 (suc k)))))
]

-- A number below 10 ^ k has at most k digits, for k at least 1.
pub length-show-le : (n k : ℕ) → 0 < k → n < 10 ^ k → length (show n) ≤ k
unfolding show
length-show-le n zero p b = absurd (omega arith)
length-show-le n (suc k) p b = length-show_fuel (suc n) n k (omega arith) b

show_fuel-IsDigits : (f n : ℕ) → All (λ c. is_digit c ≡ true) (show_fuel f n)
unfolding show_fuel
show_fuel-IsDigits zero n = tt
show_fuel-IsDigits (suc f) n = elim (Bool-cases (ltb n 10)) [
  | inl small ↦ rw small (ground arith, tt)
  | inr large ↦
      rw large
        (All-append _ (show_fuel f (n / 10)) _ (show_fuel-IsDigits f (n / 10)) (ground arith, tt))
]

pub show-IsDigits : (n : ℕ) → All (λ c. is_digit c ≡ true) (show n)
unfolding show
show-IsDigits n = show_fuel-IsDigits (suc n) n

show-cons_fuel : (f n : ℕ) → (c : ℕ) × (s : List ℕ) × (show_fuel (suc f) n ≡ c ∷ s)
show-cons_fuel f n = elim_list (show_fuel (suc f) n) (show_fuel-cons f n)
  where
    elim_list : (l : List ℕ) → l ≢ [] → (c : ℕ) × (s : List ℕ) × (l ≡ c ∷ s)
    elim_list [] h = absurd (h refl)
    elim_list (c ∷ s) h = (c, s, refl)

-- A written number begins with a digit.
pub show-cons : (n : ℕ) → (c : ℕ) × (s : List ℕ) × (show n ≡ c ∷ s) × (is_digit c ≡ true)
unfolding show
show-cons n =
    let (c, s, e) = show-cons_fuel n n in (c, s, e, (rw e at (show_fuel-IsDigits (suc n) n)).0)

-- The digits of small numbers.
pub show_one : (n : ℕ) → n < 10 → show n ≡ (48 + n) ∷ []
unfolding show show_fuel
show_one n h = ground arith

pub show_two : (n : ℕ) → 10 ≤ n → n < 100 → show n ≡ (48 + n / 10) ∷ (48 + n % 10) ∷ []
unfolding show show_fuel
show_two zero h k = absurd (omega arith)
show_two (suc n) h k = ground arith

pub read_from-append_all :
    (acc : ℕ) (s t : List ℕ) (n : ℕ)
    → read_from acc s ≡ some n
    → read_from acc (s ++ t) ≡ read_from n t
unfolding read_from
read_from-append_all acc [] t n e = ground arith
read_from-append_all acc (c ∷ s) t n e =
    ground (arith, read_from-append_all (acc * 10 + (c - 48)) s t n)

read_from-zeros : (k : ℕ) (s : List ℕ) → read_from 0 (replicate k b'0' ++ s) ≡ read_from 0 s
unfolding read_from
read_from-zeros zero s = refl
read_from-zeros (suc k) s = read_from-zeros k s

show-ne_nil : (n : ℕ) → show n ≢ []
unfolding show
show-ne_nil n = show_fuel-cons n n

-- Zeros before a written number do not change what is read.
pub read_from-padded : (k n : ℕ) → read_from 0 (replicate k b'0' ++ show n) ≡ some n
read_from-padded k n =
    read_from-zeros k (show n) ∙ (sym (read_of_cons (show n) (show-ne_nil n)) ∙ read-show n)
