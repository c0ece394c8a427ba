-- ===== src/ObjTable/AppendFile/Lines.antt =====
-- A line that WriteObjectLocationsToAOF (go/cmd/gcsobjtable/main.go) writes is read back as its entry.
use babyray.Common.{
  ℕ, zero, suc, ◌+◌, ◌<◌, ◌≤◌, ◌≡◌, refl, sym, ap, ◌∙◌, some, List, [], ◌∷◌, ◌++◌, length, All,
  arith, ◌==◌, ltb, true, false,
}
use mathlib.Core.List.{append_assoc, append-nil}
use babyray.Common.Text.{
  Text, ascii, format_uint, read_uint, read_uint-format_uint, IsBounded, IsDigit, format_uint-All,
  is_cons, format_uint-is_cons, strip,
}
use babyray.ObjTable.AppendFile.{join_values, line_text}
use babyray.ObjTable.AppendFile.Reader.{◌>>=◌, read_tail, read_values, read_line}

-- The values after the first.
abbrev pub tail_text : List ℕ → Text
tail_text [] = []
tail_text (v ∷ vs) = 44 ∷ (format_uint v ++ tail_text vs)

abbrev pub values_text : List ℕ → Text
values_text [] = []
values_text (v ∷ vs) = format_uint v ++ tail_text vs

join_values-suc :
    (i : ℕ) (str : Text) (vs : List ℕ) → join_values (suc i) str vs ≡ str ++ tail_text vs
unfolding join_values
join_values-suc i str [] = sym (append-nil str)
join_values-suc i str (v ∷ vs) =
    let later : ltb 0 (suc i) ≡ true = ground arith in
    rw later (
      join_values-suc (suc i) ((str ++ ascii ",") ++ format_uint v) vs
      ∙ append_assoc (str ++ ascii ",") (format_uint v) (tail_text vs)
      ∙ append_assoc str (ascii ",") (format_uint v ++ tail_text vs))

-- The text that the loop makes up step by step.
pub join_values-values_text : (vs : List ℕ) → join_values 0 [] vs ≡ values_text vs
unfolding join_values
join_values-values_text [] = refl
join_values-values_text (v ∷ vs) = join_values-suc 0 (format_uint v) vs

tail_text-IsBounded : (vs : List ℕ) (rest : Text) → IsBounded (tail_text vs ++ 93 ∷ rest)
tail_text-IsBounded [] rest = refl
tail_text-IsBounded (v ∷ vs) rest = refl

read_value :
    (v : ℕ) (vs : List ℕ) (rest : Text)
    → read_uint 0 ((format_uint v ++ tail_text vs) ++ 93 ∷ rest) ≡ (v, tail_text vs ++ 93 ∷ rest)
read_value v vs rest =
    ap (read_uint 0) (append_assoc (format_uint v) (tail_text vs) (93 ∷ rest))
    ∙ read_uint-format_uint v _ (tail_text-IsBounded vs rest)

read_tail-tail_text :
    (rounds : ℕ) (vs : List ℕ) (rest : Text)
    → length vs < rounds
    → read_tail rounds (tail_text vs ++ 93 ∷ rest) ≡ some (vs, rest)
unfolding read_tail
read_tail-tail_text zero vs rest lt = absurd (omega (arith, lt))
read_tail-tail_text (suc rounds) [] rest lt = refl
read_tail-tail_text (suc rounds) (v ∷ vs) rest lt = rw (read_value v vs rest) (
    ap (λ o. o >>= (λ r. some (v ∷ r.0, r.1)))
      (read_tail-tail_text rounds vs rest (omega (arith, lt))))

read_values_digits :
    (rounds : ℕ) (t u : Text) (v : ℕ)
    → is_cons t ≡ true
    → All IsDigit t
    → read_uint 0 (t ++ u) ≡ (v, u)
    → read_values rounds (t ++ u) ≡ (read_tail rounds u >>= (λ r. some (v ∷ r.0, r.1)))
unfolding read_values
read_values_digits rounds [] u v some_digit h e = cc
read_values_digits rounds (c ∷ cs) u v some_digit h e =
    let other : (c == 93) ≡ false = ground (arith, h.0) in rw other (rw e refl)

read_values-values_text :
    (rounds : ℕ) (vs : List ℕ) (rest : Text)
    → length vs < rounds
    → read_values rounds (values_text vs ++ 93 ∷ rest) ≡ some (vs, rest)
unfolding read_values
read_values-values_text rounds [] rest lt = refl
read_values-values_text rounds (v ∷ vs) rest lt =
    ap (read_values rounds) (append_assoc (format_uint v) (tail_text vs) (93 ∷ rest))
    ∙ read_values_digits rounds (format_uint v) (tail_text vs ++ 93 ∷ rest) v
        (format_uint-is_cons v) (format_uint-All v)
        (read_uint-format_uint v _ (tail_text-IsBounded vs rest))
    ∙ ap (λ o. o >>= (λ r. some (v ∷ r.0, r.1)))
        (read_tail-tail_text rounds vs rest (omega (arith, lt)))

line_text_append :
    (key : ℕ) (vs : List ℕ) (rest : Text)
    → line_text key vs ++ rest
      ≡ format_uint key ++ (58 ∷ 32 ∷ 91 ∷ (values_text vs ++ 93 ∷ 10 ∷ rest))
unfolding line_text
line_text_append key vs rest =
    append_assoc (format_uint key) (58 ∷ 32 ∷ 91 ∷ (join_values 0 [] vs ++ 93 ∷ 10 ∷ [])) rest
    ∙ ap (λ t. format_uint key ++ (58 ∷ 32 ∷ 91 ∷ t))
        (append_assoc (join_values 0 [] vs) (93 ∷ 10 ∷ []) rest
          ∙ ap (λ t. t ++ 93 ∷ 10 ∷ rest) (join_values-values_text vs))

pub read_line-line_text :
    (rounds key : ℕ) (vs : List ℕ) (rest : Text)
    → length vs < rounds
    → read_line rounds (line_text key vs ++ rest) ≡ some ((key, vs), rest)
unfolding read_line strip
read_line-line_text rounds key vs rest lt = rw (line_text_append key vs rest) (
    rw (read_uint-format_uint key (58 ∷ 32 ∷ 91 ∷ (values_text vs ++ 93 ∷ 10 ∷ rest)) refl)
      (rw (read_values-values_text rounds vs (10 ∷ rest) lt) refl))

length-append : (s t : Text) → length (s ++ t) ≡ length s + length t
length-append [] t = omega arith
length-append (c ∷ s) t = omega (arith, length-append s t)

length-tail_text : (vs : List ℕ) → length vs ≤ length (tail_text vs)
length-tail_text [] = omega arith
length-tail_text (v ∷ vs) =
    omega (arith, length-append (format_uint v) (tail_text vs), length-tail_text vs)

length-values_text : (vs : List ℕ) → length vs ≤ suc (length (values_text vs))
length-values_text [] = omega arith
length-values_text (v ∷ vs) =
    omega (arith, length-append (format_uint v) (tail_text vs), length-tail_text vs)

-- A line has more characters than values.
pub length-line_text :
    (key : ℕ) (vs : List ℕ) (rest : Text)
    → suc (length vs) + length rest ≤ length (line_text key vs ++ rest)
length-line_text key vs rest =
    let body = values_text vs ++ 93 ∷ 10 ∷ rest in
    omega (
      arith,
      ap length (line_text_append key vs rest),
      length-append (format_uint key) (58 ∷ 32 ∷ 91 ∷ body),
      length-append (values_text vs) (93 ∷ 10 ∷ rest),
      length-values_text vs,
    )

is_cons-append : (s t : Text) → is_cons s ≡ true → is_cons (s ++ t) ≡ true
is_cons-append [] t h = cc
is_cons-append (c ∷ s) t h = refl

pub line_text-is_cons :
    (key : ℕ) (vs : List ℕ) (rest : Text) → is_cons (line_text key vs ++ rest) ≡ true
line_text-is_cons key vs rest =
    ap is_cons (line_text_append key vs rest)
    ∙ is_cons-append (format_uint key) _ (format_uint-is_cons key)
