-- ===== src/Common/Text.antt =====
-- Go strings as lists of bytes, and `strconv.FormatUint` to base 10.
use Prim.Native.Nat.{ℕ, zero, suc, ◌+◌, ◌-◌, ◌*◌, ◌/◌, ◌%◌, ◌≤◌}
use Prim.Native.Char.{code}
use Prim.Native.String.{String}
use mathlib.Core.Path.{◌≡◌, refl, ap, sym, ◌∙◌}
use mathlib.Core.Logic.{◌↔◌, inl, inr}
use mathlib.Core.Bool.{Bool, true, false, ◌&&◌}
use mathlib.Core.Option.{Option, none, some}
use mathlib.Core.List.{List, [], ◌∷◌, ◌++◌}
use native.Mathlib.Omega.{arith}
use babyray.Common.Tests.{ltb, ◌==◌, if◌then◌else◌, Bool-cases}
use babyray.Common.Lists.{All}

abbrev pub Text : Type 0
Text = List ℕ

-- The bytes of an ASCII literal.
abbrev pub ascii : String → Text
ascii String.[] = []
ascii (String.◌∷◌ c cs) = code c ∷ ascii cs

-- Digits are written from the last one on, for as long as a number is left; `n` rounds are enough.
digits : (rounds n : ℕ) → Text → Text
digits zero n out = out
digits (suc rounds) n out = elim (ltb 0 n) [
  | true ↦ digits rounds (n / 10) ((48 + n % 10) ∷ out)
  | false ↦ out
]

unfoldable pub format_uint : ℕ → Text
unfolding digits
format_uint n = if n == 0 then 48 ∷ [] else digits n n []

abbrev pub is_digit : ℕ → Bool
is_digit c = ltb 47 c && ltb c 58

abbrev pub IsDigit : ℕ → Type 0
IsDigit c = is_digit c ≡ true

-- The number that digits spell behind `n`.
abbrev pub value : ℕ → Text → ℕ
value n [] = n
value n (c ∷ cs) = value (n * 10 + (c - 48)) cs

value-digits :
    (rounds n : ℕ) (out : Text) → n ≤ rounds → value 0 (digits rounds n out) ≡ value n out
unfolding digits
value-digits zero n out le = ap (λ m. value m out) (omega arith)
value-digits (suc rounds) n out le = elim (Bool-cases (ltb 0 n)) [
  | inl more ↦
      rw (more, value)
        (value-digits rounds (n / 10) ((48 + n % 10) ∷ out) (ground arith)
          ∙ ap (λ m. value m out) (omega arith))
  | inr over ↦ rw (over, value) (ap (λ m. value m out) (ground arith))
]

digits-All : (rounds n : ℕ) (out : Text) → All IsDigit out → All IsDigit (digits rounds n out)
unfolding digits
digits-All zero n out h = h
digits-All (suc rounds) n out h = elim (Bool-cases (ltb 0 n)) [
  | inl more ↦ rw (more, All) (digits-All rounds (n / 10) ((48 + n % 10) ∷ out) (ground arith, h))
  | inr over ↦ rw (over, All) h
]

pub format_uint-All : (n : ℕ) → All IsDigit (format_uint n)
unfolding format_uint
format_uint-All n = elim (Bool-cases (n == 0)) [
  | inl zero_is ↦ rw zero_is (refl, tt)
  | inr other ↦ rw other (digits-All n n [] tt)
]

-- What FormatUint prints is read back as the number.
pub value-format_uint : (n : ℕ) → value 0 (format_uint n) ≡ n
unfolding format_uint
value-format_uint n = elim (Bool-cases (n == 0)) [
  | inl zero_is ↦ rw zero_is (ground arith)
  | inr other ↦ rw other (value-digits n n [] (omega arith))
]

pub format_uint_injective : (m n : ℕ) → format_uint m ≡ format_uint n → m ≡ n
format_uint_injective m n e = sym (value-format_uint m) ∙ ap (value 0) e ∙ value-format_uint n

-- Digits read off the front of a text, with what they spell, and the rest.
unfoldable pub read_uint : ℕ → Text → ℕ × Text
read_uint n [] = (n, [])
read_uint n (c ∷ cs) =
    let more = read_uint (n * 10 + (c - 48)) cs in if is_digit c then more else (n, c ∷ cs)

-- A text in which no digit comes first.
abbrev pub IsBounded : Text → Type 0
IsBounded [] = Unit
IsBounded (c ∷ cs) = is_digit c ≡ false

read_uint-digits :
    (text rest : Text) (n : ℕ)
    → All IsDigit text
    → IsBounded rest
    → read_uint n (text ++ rest) ≡ (value n text, rest)
unfolding read_uint
read_uint-digits [] [] n h b = refl
read_uint-digits [] (c ∷ cs) n h b = rw b refl
read_uint-digits (c ∷ cs) rest n h b = rw h.0 (read_uint-digits cs rest (n * 10 + (c - 48)) h.1 b)

-- A printed number is read back from the front of a text in which no digit follows it.
pub read_uint-format_uint :
    (n : ℕ) (rest : Text) → IsBounded rest → read_uint 0 (format_uint n ++ rest) ≡ (n, rest)
read_uint-format_uint n rest b =
    read_uint-digits (format_uint n) rest 0 (format_uint-All n) b
    ∙ ap (λ m. (m, rest)) (value-format_uint n)

abbrev rest_of : Text → Text
rest_of [] = []
rest_of (c ∷ cs) = cs

pub append_cancel_left : (p x y : Text) → p ++ x ≡ p ++ y → x ≡ y
append_cancel_left [] x y e = e
append_cancel_left (c ∷ p) x y e = append_cancel_left p x y (ap rest_of e)

infix 50 ◌=text=◌
abbrev pub ◌=text=◌ : Text → Text → Bool
[] =text= [] = true
[] =text= (d ∷ ds) = false
(c ∷ cs) =text= [] = false
(c ∷ cs) =text= (d ∷ ds) = c == d && cs =text= ds

pub =text=_iff : (s t : Text) → ((s =text= t) ≡ true) ↔ (s ≡ t)
=text=_iff [] [] = (λ e. refl, λ e. refl)
=text=_iff [] (d ∷ ds) = ground arith
=text=_iff (c ∷ cs) [] = ground arith
=text=_iff (c ∷ cs) (d ∷ ds) = ground (arith, =text=_iff cs ds)

abbrev pub all_digits : Text → Bool
all_digits [] = true
all_digits (c ∷ cs) = is_digit c && all_digits cs

all_digits-true : (text : Text) → All IsDigit text → all_digits text ≡ true
all_digits-true [] h = refl
all_digits-true (c ∷ cs) h = rw h.0 (all_digits-true cs h.1)

-- Digits that are a whole text.
unfoldable pub parse_uint : Text → Option ℕ
parse_uint [] = none
parse_uint (c ∷ cs) = if all_digits (c ∷ cs) then some (value 0 (c ∷ cs)) else none

abbrev pub is_cons : Text → Bool
is_cons [] = false
is_cons (c ∷ cs) = true

digits-is_cons : (rounds n c : ℕ) (out : Text) → is_cons (digits rounds n (c ∷ out)) ≡ true
unfolding digits
digits-is_cons zero n c out = refl
digits-is_cons (suc rounds) n c out = elim (Bool-cases (ltb 0 n)) [
  | inl more ↦ rw (more, is_cons) (digits-is_cons rounds (n / 10) (48 + n % 10) (c ∷ out))
  | inr over ↦ rw (over, is_cons) refl
]

-- A printed number is not empty.
pub format_uint-is_cons : (n : ℕ) → is_cons (format_uint n) ≡ true
unfolding format_uint digits
format_uint-is_cons zero = refl
format_uint-is_cons (suc n) =
    let positive : ltb 0 (suc n) ≡ true = ground arith in
    let other : (suc n == 0) ≡ false = ground arith in
    rw other (rw (positive, is_cons) (digits-is_cons n (suc n / 10) (48 + suc n % 10) []))

parse_uint_digits :
    (text : Text) → is_cons text ≡ true → All IsDigit text → parse_uint text ≡ some (value 0 text)
unfolding parse_uint
parse_uint_digits [] some_digit h = cc
parse_uint_digits (c ∷ cs) some_digit h = rw (all_digits-true (c ∷ cs) h) refl

pub parse_uint-format_uint : (n : ℕ) → parse_uint (format_uint n) ≡ some n
parse_uint-format_uint n =
    parse_uint_digits (format_uint n) (format_uint-is_cons n) (format_uint-All n)
    ∙ ap some (value-format_uint n)

-- What comes after a prefix.
unfoldable pub strip : Text → Text → Option Text
strip [] t = some t
strip (p ∷ ps) [] = none
strip (p ∷ ps) (c ∷ cs) = let more = strip ps cs in if p == c then more else none

pub strip-append : (p t : Text) → strip p (p ++ t) ≡ some t
unfolding strip
strip-append [] t = refl
strip-append (c ∷ p) t = let same : (c == c) ≡ true = ground arith in rw same (strip-append p t)
