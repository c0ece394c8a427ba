-- ===== src/Worker/Execute.antt =====
-- `executeFunction` of go/cmd/worker/main.go and the script that it runs, go/cmd/worker/execute.py: the
-- texts that they exchange, as bytes. Base64 is RFC 4648's standard encoding, which both use.
pub mod Base64
pub mod Foreign
pub mod RoundTrip
use babyray.Common.{
  ℕ, ◌+◌, ◌-◌, ◌*◌, ◌/◌, ◌%◌, Bool, true, false, Option, none, some, List, [], ◌∷◌, ◌++◌, ltb, not,
  ◌||◌, ◌&&◌, keep, ◌==◌, if◌then◌else◌, Outcome, ok, err, map,
}
use babyray.Wire.{Bytes}

-- The character of a sextet, and the sextet of a character.
abbrev pub b64_char : ℕ → ℕ
b64_char n =
    if ltb n 26
    then n + 65
    else if ltb n 52
    then n + 71
    else if ltb n 62
    then n - 4
    else if n == 62
    then 43
    else 47

abbrev pub b64_value : ℕ → Option ℕ
b64_value c =
    if ltb 64 c && ltb c 91
    then some (c - 65)
    else if ltb 96 c && ltb c 123
    then some (c - 71)
    else if ltb 47 c && ltb c 58
    then some (c + 4)
    else if c == 43
    then some 62
    else if c == 47
    then some 63
    else none

-- The padding `=`.
abbrev pub pad : ℕ
pad = 61

-- `base64.StdEncoding.EncodeToString`
pub encode : Bytes → Bytes
encode [] = []
encode (a ∷ []) = b64_char (a / 4) ∷ b64_char (a % 4 * 16) ∷ pad ∷ pad ∷ []
encode (a ∷ b ∷ []) =
    b64_char (a / 4) ∷ b64_char (a % 4 * 16 + b / 16) ∷ b64_char (b % 16 * 4) ∷ pad ∷ []
encode (a ∷ b ∷ c ∷ rest) =
    b64_char (a / 4)
    ∷ b64_char (a % 4 * 16 + b / 16)
    ∷ b64_char (b % 16 * 4 + c / 64)
    ∷ b64_char (c % 64)
    ∷ encode rest

one_byte : Option ℕ → Option ℕ → Option Bytes
one_byte (some w) (some x) = some ((w * 4 + x / 16) ∷ [])
one_byte (some w) none = none
one_byte none x = none

two_bytes : Option ℕ → Option ℕ → Option ℕ → Option Bytes
two_bytes (some w) (some x) (some y) = some ((w * 4 + x / 16) ∷ (x % 16 * 16 + y / 4) ∷ [])
two_bytes (some w) (some x) none = none
two_bytes (some w) none y = none
two_bytes none x y = none

three_bytes : Option ℕ → Option ℕ → Option ℕ → Option ℕ → Option Bytes → Option Bytes
three_bytes (some w) (some x) (some y) (some z) (some rest) =
    some ((w * 4 + x / 16) ∷ (x % 16 * 16 + y / 4) ∷ (y % 4 * 64 + z) ∷ rest)
three_bytes (some w) (some x) (some y) (some z) none = none
three_bytes (some w) (some x) (some y) none rest = none
three_bytes (some w) (some x) none z rest = none
three_bytes (some w) none y z rest = none
three_bytes none x y z rest = none

-- The last quantum, with its padding; nothing may follow it.
last_quantum : ℕ → ℕ → ℕ → List ℕ → Option Bytes
unfolding one_byte two_bytes
last_quantum w x y [] =
    if y == pad
    then one_byte (b64_value w) (b64_value x)
    else two_bytes (b64_value w) (b64_value x) (b64_value y)
last_quantum w x y (c ∷ rest) = none

pub decode_quanta : List ℕ → Option Bytes
unfolding last_quantum three_bytes
decode_quanta [] = some []
decode_quanta (w ∷ []) = none
decode_quanta (w ∷ x ∷ []) = none
decode_quanta (w ∷ x ∷ y ∷ []) = none
decode_quanta (w ∷ x ∷ y ∷ z ∷ rest) =
    let after = decode_quanta rest in
    if z == pad
    then last_quantum w x y rest
    else three_bytes (b64_value w) (b64_value x) (b64_value y) (b64_value z) after

-- `base64.StdEncoding.DecodeString`, which skips line ends.
pub decode : List ℕ → Option Bytes
unfolding decode_quanta
decode text = decode_quanta (keep (λ c. not (c == 10 || c == 13)) text)

-- `inputBuffer`
pub input_buffer : Bytes → Bytes → Bytes → Bytes
unfolding encode
input_buffer f args kwargs = encode f ++ (10 ∷ (encode args ++ (10 ∷ encode kwargs)))

add_front : ℕ → List (List ℕ) → List (List ℕ)
add_front c [] = (c ∷ []) ∷ []
add_front c (part ∷ parts) = (c ∷ part) ∷ parts

-- input_data.split(b"\n")
pub split : List ℕ → List (List ℕ)
unfolding add_front
split [] = [] ∷ []
split (c ∷ cs) = let rest = split cs in if c == 10 then [] ∷ rest else add_front c rest

-- "exception was: ", which the script prints before an exception's text.
abbrev exception_was : List ℕ
exception_was =
    101 ∷ 120 ∷ 99 ∷ 101 ∷ 112 ∷ 116 ∷ 105 ∷ 111 ∷ 110 ∷ 32 ∷ 119 ∷ 97 ∷ 115 ∷ 58 ∷ 32 ∷ []

-- How the call of a function ends: with its result, pickled; with an exception that `except Exception`
-- catches, by its text; or with one that it does not catch, such as SystemExit, which ends the script
-- with a status that is a success or not.
pub data CallEnd : Type 0 where
  gives : Bytes → CallEnd
  raises : (message : Bytes) → CallEnd
  exits : (success : Bool) → CallEnd

-- A call, with what stdout gets of its own output: before the script prints, and after it, as from an
-- exit handler.
pub record PythonCall : Type 0 where
  pub before : List ℕ
  pub ending : CallEnd
  pub after : List ℕ

-- What the script itself prints.
script_output : CallEnd → List ℕ
unfolding encode
script_output (gives result) = encode result
script_output (raises message) = exception_was ++ message ++ (10 ∷ [])
script_output (exits success) = []

-- Whether the script's status is a success.
succeeds : CallEnd → Bool
succeeds (gives result) = true
succeeds (raises message) = true
succeeds (exits success) = success

-- What cmd.Output gives: all of stdout, or the error of a status that is no success.
stdout : PythonCall → Option (List ℕ)
unfolding script_output succeeds
stdout c =
    if succeeds c.ending then some (c.before ++ (script_output c.ending ++ c.after)) else none

called : (Bytes → Bytes → Bytes → PythonCall) → Bytes → List (Option Bytes) → Option (List ℕ)
unfolding stdout
called call broken (some f ∷ some args ∷ some kwargs ∷ rest) = stdout (call f args kwargs)
called call broken _ = stdout (record { before = []; ending = raises broken; after = [] })

-- The script as a process: `call` is the run of the function from its bytes and those of its arguments,
-- and `broken` the text of the exception for an input of another form. `init` of the Python client is
-- taken to succeed and to print nothing. Python's b64decode skips characters that are not Base64's, where
-- `decode` fails; the worker sends none.
unfoldable pub script : (Bytes → Bytes → Bytes → PythonCall) → Bytes → List ℕ → Option (List ℕ)
unfolding called split decode
script call broken input = called call broken (map decode (split input))

decode_stdout : Option (List ℕ) → Option Bytes
unfolding decode
decode_stdout none = none
decode_stdout (some text) = decode text

-- `executeFunction`, with what cmd.Output gives, or `none` for its error; `none` is log.Fatalf, which
-- ends the worker.
unfoldable pub execute_function : (List ℕ → Option (List ℕ)) → Bytes → Bytes → Bytes → Option Bytes
unfolding input_buffer decode_stdout
execute_function process f args kwargs = decode_stdout (process (input_buffer f args kwargs))
