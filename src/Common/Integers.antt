-- ===== src/Common/Integers.antt =====
-- Go's `int` as an integer: what `%d` and `strconv.Itoa` print, and `strconv.Atoi`.
use Prim.Native.Nat.{ℕ, zero, suc, ◌-◌, ◌%◌, ◌^◌, ◌<◌}
use mathlib.Core.Path.{◌≡◌, refl, ap, sym, ◌∙◌}
use mathlib.Core.Option.{Option, none, some, some-injective}
use mathlib.Core.List.{[], ◌∷◌}
use native.Mathlib.Omega.{arith}
use babyray.Common.Tests.{ltb, ◌==◌, if◌then◌else◌}
use babyray.Common.Lists.{All}
use babyray.Common.Text.{
  Text, IsDigit, format_uint, format_uint-All, parse_uint, parse_uint-format_uint,
}

pub data ℤ : Type 0 where
  pos : ℕ → ℤ
  negsuc : ℕ → ℤ

unfoldable pub format_int : ℤ → Text
format_int (pos n) = format_uint n
format_int (negsuc n) = 45 ∷ format_uint (suc n)

negative : Option ℕ → Option ℤ
negative none = none
negative (some zero) = some (pos 0)
negative (some (suc n)) = some (negsuc n)

non_negative : Option ℕ → Option ℤ
non_negative none = none
non_negative (some n) = some (pos n)

-- A sign and digits; the number is not bounded yet.
unfoldable pub parse_int : Text → Option ℤ
unfolding negative non_negative
parse_int [] = none
parse_int (c ∷ cs) =
    if c == 45
    then negative (parse_uint cs)
    else if c == 43
    then non_negative (parse_uint cs)
    else non_negative (parse_uint (c ∷ cs))

-- The result that goes with an error of range.
clamp : ℤ → ℤ
clamp (pos n) = if ltb n (2 ^ 63) then pos n else pos (2 ^ 63 - 1)
clamp (negsuc n) = if ltb n (2 ^ 63) then negsuc n else negsuc (2 ^ 63 - 1)

clamp_parsed : Option ℤ → ℤ
unfolding clamp
clamp_parsed none = pos 0
clamp_parsed (some z) = clamp z

-- `strconv.Atoi` where its error is dropped: a text that is no number is 0.
unfoldable pub atoi : Text → ℤ
unfolding clamp_parsed
atoi text = clamp_parsed (parse_int text)

-- The conversion `uint64(z)`.
unfoldable pub uint64_of : ℤ → ℕ
uint64_of (pos n) = n % 2 ^ 64
uint64_of (negsuc n) = 2 ^ 64 - 1 - n % 2 ^ 64

pos_of_digits : (text : Text) → All IsDigit text → parse_int text ≡ non_negative (parse_uint text)
unfolding parse_int parse_uint
pos_of_digits [] h = refl
pos_of_digits (c ∷ cs) h = ground (arith, h.0)

pub parse_int-format_int : (z : ℤ) → parse_int (format_int z) ≡ some z
unfolding format_int parse_int
parse_int-format_int (pos n) =
    pos_of_digits (format_uint n) (format_uint-All n) ∙ ap non_negative (parse_uint-format_uint n)
parse_int-format_int (negsuc n) = ap negative (parse_uint-format_uint (suc n))

pub format_int_injective : (y z : ℤ) → format_int y ≡ format_int z → y ≡ z
format_int_injective y z e =
    some-injective _ _ (sym (parse_int-format_int y) ∙ ap parse_int e ∙ parse_int-format_int z)

-- A number that fits is read back as itself.
pub atoi-format_uint : (n : ℕ) → n < 2 ^ 63 → uint64_of (atoi (format_uint n)) ≡ n
unfolding atoi uint64_of format_int
atoi-format_uint n small =
    ap (λ o. uint64_of (clamp_parsed o)) (parse_int-format_int (pos n)) ∙ ground (arith, small)
