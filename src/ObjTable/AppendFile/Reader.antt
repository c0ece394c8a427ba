-- ===== src/ObjTable/AppendFile/Reader.antt =====
-- A reader of the lines that WriteObjectLocationsToAOF (go/cmd/gcsobjtable/main.go) writes; the
-- repository has none.
use babyray.Common.{ℕ, zero, suc, Option, none, some, List, [], ◌∷◌, length, ◌==◌, if◌then◌else◌}
use babyray.Common.Dict.{Dict}
use babyray.Common.Text.{Text, ascii, strip, read_uint}

infixl 1 ◌>>=◌
abbrev pub ◌>>=◌ {ℓ κ} : {A : Type ℓ} {B : Type κ} → Option A → (A → Option B) → Option B
none >>= f = none
some a >>= f = f a

-- Values up to the closing bracket, a comma before each; one of `rounds` is spent on each.
unfoldable pub read_tail : (rounds : ℕ) → Text → Option (List ℕ × Text)
unfolding read_uint
read_tail zero t = none
read_tail (suc rounds) [] = none
read_tail (suc rounds) (c ∷ cs) =
    let (v, rest) = read_uint 0 cs in
    let more = (do (vs, t) ← read_tail rounds rest; some (v ∷ vs, t)) in
    if c == 44 then more else if c == 93 then some ([], cs) else none

unfoldable pub read_values : ℕ → Text → Option (List ℕ × Text)
unfolding read_tail
read_values rounds [] = none
read_values rounds (c ∷ cs) =
    let (v, rest) = read_uint 0 (c ∷ cs) in
    let more = (do (vs, t) ← read_tail rounds rest; some (v ∷ vs, t)) in
    if c == 93 then some ([], cs) else more

unfoldable pub read_line : ℕ → Text → Option ((ℕ × List ℕ) × Text)
unfolding read_values
read_line rounds t = do
  let (key, after_key) = read_uint 0 t
  values ← strip (ascii ": [") after_key
  (vs, after_values) ← read_values rounds values
  rest ← strip (10 ∷ []) after_values
  some ((key, vs), rest)

unfoldable pub read_lines : ℕ → Text → Option (Dict (List ℕ))
unfolding read_line
read_lines zero t = none
read_lines (suc rounds) [] = some []
read_lines (suc rounds) (c ∷ cs) = do
  (entry, rest) ← read_line rounds (c ∷ cs)
  m ← read_lines rounds rest
  some (entry ∷ m)

-- The entries of a whole file, in their order.
unfoldable pub read_log : Text → Option (Dict (List ℕ))
unfolding read_lines
read_log t = read_lines (suc (length t)) t
