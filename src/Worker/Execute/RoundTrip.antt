-- ===== src/Worker/Execute/RoundTrip.antt =====
-- What the worker gets back from go/cmd/worker/execute.py.
use babyray.Common.{
  All, ℕ, ◌≡◌, refl, ap, ◌∙◌, Bool, true, false, Bool-cases, inl, inr, if◌then◌else◌, Option, none,
  some, List, [], ◌++◌, keep, not, arith,
}
use babyray.Wire.{Bytes}
use babyray.Worker.Execute.{
  encode, decode, input_buffer, CallEnd, gives, raises, exits, PythonCall, script_output, succeeds,
  stdout, called, script, decode_stdout, execute_function,
}
use babyray.Worker.Execute.Base64.{IsByte, decode-encode, split-input_buffer}
use babyray.Worker.Execute.Foreign.{
  any_of, is_blank, is_foreign, any_of-append, decode-foreign, decode-blank,
}

-- What comes back where the script prints `text` for the bytes `result` between other output: the end of
-- the worker, if that output has a character that is not Base64's and no line end; the result, if it has
-- line ends alone; and else whatever the characters of all the output stand for.
abbrev pub result_between : (before text after : List ℕ) (result : Bytes) → Option Bytes
result_between before text after result =
    if any_of is_foreign (before ++ after)
    then none
    else if any_of (λ c. not (is_blank c)) (before ++ after)
    then decode (before ++ (text ++ after))
    else some result

-- What comes back of a call, by how it ends.
abbrev pub outcome_of_end : (before after : List ℕ) → CallEnd → Option Bytes
outcome_of_end before after (gives result) = result_between before (encode result) after result
outcome_of_end before after (raises message) = none
outcome_of_end before after (exits true) = result_between before [] after []
outcome_of_end before after (exits false) = none

abbrev pub outcome_of : PythonCall → Option Bytes
outcome_of c = outcome_of_end c.before c.after c.ending

-- A result is bytes.
abbrev pub IsResult : CallEnd → Type 0
IsResult (gives result) = All IsByte result
IsResult (raises message) = Unit
IsResult (exits success) = Unit

any_of-around :
    (p : ℕ → Bool) (before text after : List ℕ)
    → any_of p (before ++ after) ≡ true
    → any_of p (before ++ (text ++ after)) ≡ true
any_of-around p before text after h = ground (
  arith,
  h,
  any_of-append p before after,
  any_of-append p before (text ++ after),
  any_of-append p text after,
)

decode-between :
    (before text after : List ℕ) (result : Bytes)
    → decode text ≡ some result
    → decode (before ++ (text ++ after)) ≡ result_between before text after result
decode-between before text after result e =
    elim (Bool-cases (any_of is_foreign (before ++ after))) [
      | inl foreign ↦ rw foreign (
          decode-foreign (before ++ (text ++ after))
            (any_of-around is_foreign before text after foreign))
      | inr clean ↦ rw clean (elim (Bool-cases (any_of (λ c. not (is_blank c)) (before ++ after))) [
        | inl mixed ↦ rw mixed refl
        | inr blank ↦ rw blank (decode-blank before text after blank ∙ e)
      ])
    ]

-- The text of an exception is in a sentence.
decode-exception :
    (before message after : List ℕ)
    → decode (before ++ (script_output (raises message) ++ after)) ≡ none
unfolding script_output is_foreign
decode-exception before message after =
    decode-foreign (before ++ (script_output (raises message) ++ after))
      (ground (arith, any_of-append is_foreign before (script_output (raises message) ++ after)))

stdout-decoded :
    (before after : List ℕ) (ending : CallEnd)
    → IsResult ending
    → decode_stdout (stdout (record { before = before; ending = ending; after = after }))
      ≡ outcome_of_end before after ending
unfolding stdout decode_stdout script_output succeeds keep
stdout-decoded before after (gives result) h =
    decode-between before (encode result) after result (decode-encode result h)
stdout-decoded before after (raises message) h = decode-exception before message after
stdout-decoded before after (exits true) h = decode-between before [] after [] refl
stdout-decoded before after (exits false) h = refl

script-input_buffer :
    (call : Bytes → Bytes → Bytes → PythonCall) (broken f args kwargs : Bytes)
    → All IsByte f
    → All IsByte args
    → All IsByte kwargs
    → script call broken (input_buffer f args kwargs) ≡ stdout (call f args kwargs)
unfolding script called
script-input_buffer call broken f args kwargs hf ha hk =
    rw (split-input_buffer f args kwargs hf ha hk)
      (rw (decode-encode f hf) (rw (decode-encode args ha) (rw (decode-encode kwargs hk) refl)))

-- Over the script, executeFunction calls the function with the bytes that the worker was given. If the
-- call raises an exception that the script catches, whatever its text, or ends the script with a status
-- that is no success, the worker ends. If it gives a result, executeFunction gives back the bytes of the
-- result where stdout got nothing else but line ends; the worker ends where stdout got a character that
-- is not Base64's; and else the output is decoded together with the result. A call that ends the
-- script with success is taken, in the same way, for one whose result is no bytes at all.
pub execute_function-script :
    (call : Bytes → Bytes → Bytes → PythonCall) (broken f args kwargs : Bytes)
    → All IsByte f
    → All IsByte args
    → All IsByte kwargs
    → IsResult (call f args kwargs).ending
    → execute_function (script call broken) f args kwargs ≡ outcome_of (call f args kwargs)
unfolding execute_function
execute_function-script call broken f args kwargs hf ha hk hr =
    let c = call f args kwargs in
    ap decode_stdout (script-input_buffer call broken f args kwargs hf ha hk)
    ∙ stdout-decoded c.before c.after c.ending hr
