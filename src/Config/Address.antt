-- ===== src/Config/Address.antt =====
-- Which node and port an address like those under go/cmd names: an independent reading of its text.
use babyray.Common.{
  ℕ, ◌≡◌, refl, ap, ◌∙◌, Bool, true, false, Option, none, some, [], ◌∷◌, ◌++◌, ◌==◌, if◌then◌else◌,
  All, All-weaken, arith, Bool-cases, inl, inr,
}
use babyray.Common.Text.{
  Text, strip, strip-append, ascii, IsDigit, format_uint, format_uint-All, is_digit, ◌=text=◌,
  =text=_iff, is_cons, format_uint-is_cons,
}
use babyray.Common.Integers.{ℤ, pos, negsuc, format_int, parse_int, parse_int-format_int}
use babyray.Config.Wiring.{listen_on, at_node}

with_char : ℕ → Option (Text × Text) → Option (Text × Text)
with_char c none = none
with_char c (some (host, rest)) = some (c ∷ host, rest)

-- The host of an address, and the rest from the first colon on.
split_host : Text → Option (Text × Text)
unfolding with_char
split_host [] = none
split_host (c ∷ cs) =
    let more = with_char c (split_host cs) in if c == 58 then some ([], c ∷ cs) else more

number_of : Option Text → Option ℤ
number_of none = none
number_of (some t) = parse_int t

-- The node of a host: this one for `localhost`, else the one whose number follows the prefix.
node_of_host : Text → ℤ → Text → Option ℤ
unfolding number_of
node_of_host prefix here host =
    if host =text= ascii "localhost" then some here else number_of (strip prefix host)

at_port : Option ℤ → Text → Option (ℤ × Text)
at_port none port = none
at_port (some node) port = some (node, port)

host_and_port : Text → ℤ → Option (Text × Text) → Option (ℤ × Text)
unfolding node_of_host at_port
host_and_port prefix here none = none
host_and_port prefix here (some (host, port)) = at_port (node_of_host prefix here host) port

-- The node that an address leads to from a node, and the port there, where the node `n` has the name
-- `prefix` and `n`.
pub reach : Text → ℤ → Text → Option (ℤ × Text)
unfolding split_host host_and_port
reach prefix here address = host_and_port prefix here (split_host address)

abbrev pub IsHostChar : ℕ → Type 0
IsHostChar c = (c == 58) ≡ false

split_host-append :
    (host port : Text)
    → All IsHostChar host
    → split_host (host ++ 58 ∷ port) ≡ some (host, 58 ∷ port)
unfolding split_host
split_host-append [] port h = refl
split_host-append (c ∷ cs) port h = rw h.0 (ap (with_char c) (split_host-append cs port h.1))

All-append : (P : ℕ → Type 0) (s t : Text) → All P s → All P t → All P (s ++ t)
All-append P [] t h k = k
All-append P (c ∷ s) t h k = (h.0, All-append P s t h.1 k)

format_int-IsHostChar : (z : ℤ) → All IsHostChar (format_int z)
unfolding format_int
format_int-IsHostChar (pos n) =
    All-weaken IsDigit IsHostChar (λ c h. ground (arith, h)) _ (format_uint-All n)
format_int-IsHostChar (negsuc n) =
    (refl, All-weaken IsDigit IsHostChar (λ c h. ground (arith, h)) _ (format_uint-All _))

-- Whether the last character is a digit.
ends_in_digit : Bool → Text → Bool
ends_in_digit b [] = b
ends_in_digit b (c ∷ cs) = ends_in_digit (is_digit c) cs

ends_in_digit-append :
    (b : Bool) (s t : Text) → is_cons t ≡ true → ends_in_digit b (s ++ t) ≡ ends_in_digit b t
unfolding ends_in_digit
ends_in_digit-append b [] t h = refl
ends_in_digit-append b (c ∷ s) [] h = cc
ends_in_digit-append b (c ∷ s) (d ∷ t) h = ends_in_digit-append (is_digit c) s (d ∷ t) h

ends_in_digit-All : (b : Bool) (t : Text) → b ≡ true → All IsDigit t → ends_in_digit b t ≡ true
unfolding ends_in_digit
ends_in_digit-All b [] e h = e
ends_in_digit-All b (c ∷ t) e h = ends_in_digit-All (is_digit c) t h.0 h.1

ends_in_digit_of_digits :
    (s : Text) (t : Text) → is_cons t ≡ true → All IsDigit t → ends_in_digit false (s ++ t) ≡ true
unfolding ends_in_digit
ends_in_digit_of_digits s [] h k = cc
ends_in_digit_of_digits s (c ∷ t) h k =
    ends_in_digit-append false s (c ∷ t) h ∙ ends_in_digit-All (is_digit c) t k.0 k.1

ends_in_digit-host : (prefix : Text) (z : ℤ) → ends_in_digit false (prefix ++ format_int z) ≡ true
unfolding format_int ends_in_digit
ends_in_digit-host prefix (pos n) =
    ends_in_digit_of_digits prefix (format_uint n) (format_uint-is_cons n) (format_uint-All n)
ends_in_digit-host prefix (negsuc n) =
    ends_in_digit-append false prefix (45 ∷ format_uint _) refl
    ∙ ends_in_digit_of_digits [] (format_uint _) (format_uint-is_cons _) (format_uint-All _)

host-localhost : (prefix : Text) (z : ℤ) → (prefix ++ format_int z =text= ascii "localhost") ≡ false
unfolding ends_in_digit
host-localhost prefix z = elim (Bool-cases (prefix ++ format_int z =text= ascii "localhost")) [
  | inl same ↦ absurd (
      ground (
        arith,
        ends_in_digit-host prefix z,
        ap (ends_in_digit false) ((=text=_iff (prefix ++ format_int z) (ascii "localhost")).0 same),
      ))
  | inr differ ↦ differ
]

node_of_host-host :
    (prefix : Text) (here z : ℤ) → node_of_host prefix here (prefix ++ format_int z) ≡ some z
unfolding node_of_host
node_of_host-host prefix here z =
    rw (host-localhost prefix z)
      (ap number_of (strip-append prefix (format_int z)) ∙ parse_int-format_int z)

pub reach-at_node :
    (prefix : Text) (here node port : ℤ)
    → All IsHostChar prefix
    → reach prefix here (at_node prefix node port) ≡ some (node, listen_on port)
unfolding reach
reach-at_node prefix here node port h =
    let host = prefix ++ format_int node in
    ap (host_and_port prefix here) (
      split_host-append host (format_int port)
        (All-append IsHostChar prefix (format_int node) h (format_int-IsHostChar node)))
    ∙ ap (λ n. at_port n (listen_on port)) (node_of_host-host prefix here node)

pub reach-localhost :
    (prefix : Text) (here : ℤ) (port : Text)
    → reach prefix here (ascii "localhost" ++ 58 ∷ port) ≡ some (here, 58 ∷ port)
unfolding reach split_host node_of_host
reach-localhost prefix here port = refl
