-- ===== src/Worker/Execute/Foreign.antt =====
-- Base64's decoder, as go/cmd/worker/main.go calls it, on a text with other characters in it.
use babyray.Common.{
  ℕ, ◌≡◌, refl, ap, ◌∙◌, Bool, true, false, Option, none, some, List, [], ◌∷◌, ◌++◌, keep, ◌==◌,
  ◌||◌, ◌&&◌, not, arith, Bool-cases, inl, inr,
}
use mathlib.Core.List.{append-nil}
use babyray.Worker.Execute.{
  b64_value, pad, one_byte, two_bytes, three_bytes, last_quantum, decode_quanta, decode,
}

abbrev pub any_of : (ℕ → Bool) → List ℕ → Bool
any_of p [] = false
any_of p (c ∷ cs) = p c || any_of p cs

-- A line end, which the decoder skips.
abbrev pub is_blank : ℕ → Bool
is_blank c = c == 10 || c == 13

abbrev is_none : Option ℕ → Bool
is_none none = true
is_none (some n) = false

-- A character without a sextet.
misses : ℕ → Bool
misses c = is_none (b64_value c)

-- A character that is no line end, no sextet's and no padding.
unfoldable pub is_foreign : ℕ → Bool
unfolding misses
is_foreign c = not (is_blank c) && (not (c == pad) && misses c)

is_foreign-means :
    (c : ℕ) → is_foreign c ≡ true → (is_blank c ≡ false) × ((c == pad) ≡ false) × (misses c ≡ true)
unfolding is_foreign
is_foreign-means c h = ground (arith, h)

is_foreign-blank : (c : ℕ) → is_blank c ≡ true → is_foreign c ≡ false
unfolding is_foreign
is_foreign-blank c h = rw h refl

pub any_of-append :
    (p : ℕ → Bool) (xs ys : List ℕ) → any_of p (xs ++ ys) ≡ (any_of p xs || any_of p ys)
any_of-append p [] ys = refl
any_of-append p (c ∷ cs) ys = ground (arith, any_of-append p cs ys)

any_of-keep :
    (text : List ℕ) → any_of is_foreign (keep (λ c. not (is_blank c)) text) ≡ any_of is_foreign text
unfolding keep
any_of-keep [] = refl
any_of-keep (c ∷ cs) = elim (Bool-cases (is_blank c)) [
  | inl blank ↦ rw (blank, is_foreign-blank c blank) (any_of-keep cs)
  | inr other ↦ rw other (ap (λ b. is_foreign c || b) (any_of-keep cs))
]

-- One of three sextets or four that is none spoils the quantum.
one_byte-none : (w x : Option ℕ) → (is_none w || is_none x) ≡ true → one_byte w x ≡ none
unfolding one_byte
one_byte-none none x h = refl
one_byte-none (some a) none h = refl
one_byte-none (some a) (some b) h = cc

two_bytes-none :
    (w x y : Option ℕ) → (is_none w || (is_none x || is_none y)) ≡ true → two_bytes w x y ≡ none
unfolding two_bytes
two_bytes-none none x y h = refl
two_bytes-none (some a) none y h = refl
two_bytes-none (some a) (some b) none h = refl
two_bytes-none (some a) (some b) (some c) h = cc

three_bytes-none :
    (w x y z : Option ℕ) (rest : Option (List ℕ))
    → (is_none w || (is_none x || (is_none y || is_none z))) ≡ true
    → three_bytes w x y z rest ≡ none
unfolding three_bytes
three_bytes-none none x y z rest h = refl
three_bytes-none (some a) none y z rest h = refl
three_bytes-none (some a) (some b) none z rest h = refl
three_bytes-none (some a) (some b) (some c) none rest h = refl
three_bytes-none (some a) (some b) (some c) (some d) rest h = cc

missed_two : (w x : ℕ) → (misses w || misses x) ≡ true → one_byte (b64_value w) (b64_value x) ≡ none
unfolding misses
missed_two w x h = one_byte-none (b64_value w) (b64_value x) h

missed_three :
    (w x y : ℕ)
    → (misses w || (misses x || misses y)) ≡ true
    → two_bytes (b64_value w) (b64_value x) (b64_value y) ≡ none
unfolding misses
missed_three w x y h = two_bytes-none (b64_value w) (b64_value x) (b64_value y) h

missed_four :
    (w x y z : ℕ) (rest : Option (List ℕ))
    → (misses w || (misses x || (misses y || misses z))) ≡ true
    → three_bytes (b64_value w) (b64_value x) (b64_value y) (b64_value z) rest ≡ none
unfolding misses
missed_four w x y z rest h =
    three_bytes-none (b64_value w) (b64_value x) (b64_value y) (b64_value z) rest h

three_bytes_spoilt : (w x y z : Option ℕ) → three_bytes w x y z none ≡ none
unfolding three_bytes
three_bytes_spoilt none x y z = refl
three_bytes_spoilt (some a) none y z = refl
three_bytes_spoilt (some a) (some b) none z = refl
three_bytes_spoilt (some a) (some b) (some c) none = refl
three_bytes_spoilt (some a) (some b) (some c) (some d) = refl

last_quantum-foreign :
    (w x y : ℕ) (rest : List ℕ)
    → any_of is_foreign (w ∷ x ∷ y ∷ rest) ≡ true
    → last_quantum w x y rest ≡ none
unfolding last_quantum
last_quantum-foreign w x y (c ∷ rest) h = refl
last_quantum-foreign w x y [] h = elim (Bool-cases (y == pad)) [
  | inl padded ↦ rw padded (
      missed_two w x
        (ground (arith, h, padded, is_foreign-means w, is_foreign-means x, is_foreign-means y)))
  | inr other ↦ rw other (
      missed_three w x y
        (ground (arith, h, is_foreign-means w, is_foreign-means x, is_foreign-means y)))
]

pub decode_quanta-foreign :
    (text : List ℕ) → any_of is_foreign text ≡ true → decode_quanta text ≡ none
unfolding decode_quanta
decode_quanta-foreign [] h = cc
decode_quanta-foreign (w ∷ []) h = refl
decode_quanta-foreign (w ∷ x ∷ []) h = refl
decode_quanta-foreign (w ∷ x ∷ y ∷ []) h = refl
decode_quanta-foreign (w ∷ x ∷ y ∷ z ∷ rest) h = elim (Bool-cases (z == pad)) [
  | inl padded ↦
      rw padded (last_quantum-foreign w x y rest (ground (arith, h, padded, is_foreign-means z)))
  | inr other ↦ rw other (elim (Bool-cases (any_of is_foreign rest)) [
    | inl later ↦ rw (decode_quanta-foreign rest later) (three_bytes_spoilt _ _ _ _)
    | inr clean ↦ missed_four w x y z (decode_quanta rest) (
        ground (
          arith,
          h,
          clean,
          is_foreign-means w,
          is_foreign-means x,
          is_foreign-means y,
          is_foreign-means z,
        ))
  ])
]

-- A text with a foreign character does not decode.
pub decode-foreign : (text : List ℕ) → any_of is_foreign text ≡ true → decode text ≡ none
unfolding decode
decode-foreign text h =
    decode_quanta-foreign (keep (λ c. not (is_blank c)) text) (any_of-keep text ∙ h)

keep-append : (p : ℕ → Bool) (xs ys : List ℕ) → keep p (xs ++ ys) ≡ keep p xs ++ keep p ys
unfolding keep
keep-append p [] ys = refl
keep-append p (c ∷ cs) ys = elim (Bool-cases (p c)) [
  | inl in' ↦ rw in' (ap (λ t. c ∷ t) (keep-append p cs ys))
  | inr out ↦ rw out (keep-append p cs ys)
]

keep-blank :
    (text : List ℕ)
    → any_of (λ c. not (is_blank c)) text ≡ false
    → keep (λ c. not (is_blank c)) text ≡ []
unfolding keep
keep-blank [] h = refl
keep-blank (c ∷ cs) h = ground (arith, h, keep-blank cs)

-- Line ends around a text make no difference.
pub decode-blank :
    (before text after : List ℕ)
    → any_of (λ c. not (is_blank c)) (before ++ after) ≡ false
    → decode (before ++ (text ++ after)) ≡ decode text
unfolding decode
decode-blank before text after h =
    let p = λ (c : ℕ). not (is_blank c) in
    let first : any_of p before ≡ false = ground (arith, h, any_of-append p before after) in
    let last : any_of p after ≡ false = ground (arith, h, any_of-append p before after) in
    ap decode_quanta (
      keep-append p before (text ++ after)
      ∙ ap (λ t. t ++ keep p (text ++ after)) (keep-blank before first)
      ∙ keep-append p text after
      ∙ ap (λ t. keep p text ++ t) (keep-blank after last)
      ∙ append-nil (keep p text))
