-- ===== src/Worker/Execute/Base64.antt =====
-- Base64 as go/cmd/worker/main.go and go/cmd/worker/execute.py use it: what is encoded decodes, and the
-- lines of the input stay apart.
use babyray.Common.{
  All, ℕ, ◌+◌, ◌*◌, ◌/◌, ◌%◌, ◌<◌, ◌≡◌, refl, ap, ◌∙◌, false, some, List, [], ◌∷◌, ◌++◌, keep, ◌==◌,
  ◌||◌, not, arith,
}
use babyray.Wire.{Bytes}
use babyray.Worker.Execute.{
  b64_char, b64_value, encode, one_byte, two_bytes, three_bytes, last_quantum, decode_quanta,
  decode, input_buffer, add_front, split,
}

b64_value-b64_char : (n : ℕ) → n < 64 → b64_value (b64_char n) ≡ some n
b64_value-b64_char n lt = ground arith

b64_char_not_pad : (n : ℕ) → n < 64 → (b64_char n == 61) ≡ false
b64_char_not_pad n lt = ground arith

b64_char_in_line : (n : ℕ) → n < 64 → (b64_char n == 10 || b64_char n == 13) ≡ false
b64_char_in_line n lt = ground arith

abbrev pub IsByte : ℕ → Type 0
IsByte b = b < 256

first_sextet : (a b : ℕ) → a < 256 → b < 256 → a / 4 * 4 + (a % 4 * 16 + b / 16) / 16 ≡ a
first_sextet a b ha hb = omega arith

second_sextet :
    (a b c : ℕ)
    → a < 256
    → b < 256
    → c < 256
    → (a % 4 * 16 + b / 16) % 16 * 16 + (b % 16 * 4 + c / 64) / 4 ≡ b
second_sextet a b c ha hb hc = omega arith

third_sextet : (b c : ℕ) → c < 256 → (b % 16 * 4 + c / 64) % 4 * 64 + c % 64 ≡ c
third_sextet b c hc = omega arith

last_sextet : (a b : ℕ) → a < 256 → b < 256 → (a % 4 * 16 + b / 16) % 16 * 16 + b % 16 * 4 / 4 ≡ b
last_sextet a b ha hb = omega arith

decode_quanta-encode :
    (bytes : Bytes) → All IsByte bytes → decode_quanta (encode bytes) ≡ some bytes
unfolding decode_quanta encode last_quantum one_byte two_bytes three_bytes
decode_quanta-encode [] h = refl
decode_quanta-encode (a ∷ []) h = rw (b64_value-b64_char (a / 4) (omega (arith, h.0))) (
    rw (b64_value-b64_char (a % 4 * 16) (omega arith))
      (ap (λ v. some (v ∷ [])) (omega (arith, h.0))))
decode_quanta-encode (a ∷ b ∷ []) h = rw (b64_char_not_pad (b % 16 * 4) (omega arith)) (
    rw (b64_value-b64_char (a / 4) (omega (arith, h.0))) (
      rw (b64_value-b64_char (a % 4 * 16 + b / 16) (omega (arith, h.1.0))) (
        rw (b64_value-b64_char (b % 16 * 4) (omega arith))
          (rw (first_sextet a b h.0 h.1.0) (rw (last_sextet a b h.0 h.1.0) refl)))))
decode_quanta-encode (a ∷ b ∷ c ∷ rest) h = rw (b64_char_not_pad (c % 64) (omega arith)) (
    rw (b64_value-b64_char (a / 4) (omega (arith, h.0))) (
      rw (b64_value-b64_char (a % 4 * 16 + b / 16) (omega (arith, h.1.0))) (
        rw (b64_value-b64_char (b % 16 * 4 + c / 64) (omega (arith, h.1.1.0))) (
          rw (b64_value-b64_char (c % 64) (omega arith)) (
            rw (decode_quanta-encode rest h.1.1.1) (
              rw (first_sextet a b h.0 h.1.0) (
                rw (second_sextet a b c h.0 h.1.0 h.1.1.0)
                  (rw (third_sextet b c h.1.1.0) refl))))))))

abbrev InLine : ℕ → Type 0
InLine c = (c == 10 || c == 13) ≡ false

encode-InLine : (bytes : Bytes) → All IsByte bytes → All InLine (encode bytes)
unfolding encode
encode-InLine [] h = tt
encode-InLine (a ∷ []) h = (
  b64_char_in_line (a / 4) (omega (arith, h.0)),
  (b64_char_in_line (a % 4 * 16) (omega arith), (refl, (refl, tt))),
)
encode-InLine (a ∷ b ∷ []) h = (
  b64_char_in_line (a / 4) (omega (arith, h.0)),
  (
    b64_char_in_line (a % 4 * 16 + b / 16) (omega (arith, h.1.0)),
    (b64_char_in_line (b % 16 * 4) (omega arith), (refl, tt)),
  ),
)
encode-InLine (a ∷ b ∷ c ∷ rest) h = (
  b64_char_in_line (a / 4) (omega (arith, h.0)),
  (
    b64_char_in_line (a % 4 * 16 + b / 16) (omega (arith, h.1.0)),
    (
      b64_char_in_line (b % 16 * 4 + c / 64) (omega (arith, h.1.1.0)),
      (b64_char_in_line (c % 64) (omega arith), encode-InLine rest h.1.1.1),
    ),
  ),
)

keep-InLine : (text : List ℕ) → All InLine text → keep (λ c. not (c == 10 || c == 13)) text ≡ text
unfolding keep
keep-InLine [] h = refl
keep-InLine (c ∷ cs) h = rw h.0 (ap (λ t. c ∷ t) (keep-InLine cs h.1))

split-InLine : (text : List ℕ) → All InLine text → split text ≡ text ∷ []
unfolding split add_front
split-InLine [] h = refl
split-InLine (c ∷ cs) h = ground (arith, h.0, split-InLine cs h.1)

split-line :
    (text more : List ℕ) → All InLine text → split (text ++ (10 ∷ more)) ≡ text ∷ split more
unfolding split add_front
split-line [] more h = refl
split-line (c ∷ cs) more h = ground (arith, h.0, split-line cs more h.1)

pub decode-encode : (bytes : Bytes) → All IsByte bytes → decode (encode bytes) ≡ some bytes
unfolding decode
decode-encode bytes h =
    rw (keep-InLine (encode bytes) (encode-InLine bytes h)) (decode_quanta-encode bytes h)

pub split-input_buffer :
    (f args kwargs : Bytes)
    → All IsByte f
    → All IsByte args
    → All IsByte kwargs
    → split (input_buffer f args kwargs) ≡ encode f ∷ encode args ∷ encode kwargs ∷ []
unfolding input_buffer
split-input_buffer f args kwargs hf ha hk =
    split-line (encode f) (encode args ++ (10 ∷ encode kwargs)) (encode-InLine f hf)
    ∙ ap (λ parts. encode f ∷ parts)
        (split-line (encode args) (encode kwargs) (encode-InLine args ha)
          ∙ ap (λ parts. encode args ∷ parts)
              (split-InLine (encode kwargs) (encode-InLine kwargs hk)))
