-- ===== src/Common/Net/Rejoin.antt =====
-- What Go's `net.SplitHostPort` reads off, and what it makes of an address that `net.JoinHostPort` wrote.
use babyray.Common.Tests.{◌==◌, ==_iff, Bool-cases}
use babyray.Common.Lists.{elem, elem-append, All}
use babyray.Common.Text.{Text, IsDigit, is_digit, format_uint, format_uint-All}
use babyray.Common.Integers.{ℤ, pos, negsuc, format_int}
use Prim.Native.Nat.{ℕ, suc}
use mathlib.Core.Path.{subst, ◌≡◌, refl, ap, sym, ◌∙◌}
use mathlib.Core.Logic.{inl, inr}
use mathlib.Core.Bool.{true, false, ◌||◌, not}
use mathlib.Core.Option.{Option, none, some}
use mathlib.Core.List.{[], ◌∷◌, ◌++◌}
use native.Mathlib.Omega.{arith}
use babyray.Common.Net.{with_byte, cut, plain, in_brackets, split_host_port, join_host_port}

-- A text without a byte.
abbrev pub Lacks : ℕ → Text → Type 0
Lacks b text = elem b text ≡ false

-- A text without brackets.
abbrev pub IsHost : Text → Type 0
IsHost host = Lacks 91 host × Lacks 93 host

cut-append :
    (b : ℕ) (host port : Text) → Lacks b host → cut b (host ++ b ∷ port) ≡ some (host, port)
unfolding cut elem with_byte
cut-append b [] port h = let same : (b == b) ≡ true = ground arith in rw same refl
cut-append b (c ∷ cs) port h =
    let other : (c == b) ≡ false = ground (arith, h) in
    let rest : elem b cs ≡ false = ground (arith, h) in
    rw other (ap (with_byte c) (cut-append b cs port rest))

-- What a cut gives is what stands around the byte, the first of its kind.
abbrev IsCut : ℕ → Text → Option (Text × Text) → Type 0
IsCut b text none = Lacks b text
IsCut b text (some (before, after)) = (text ≡ before ++ b ∷ after) × Lacks b before

with_byte-IsCut :
    (b c : ℕ) (cs : Text) (o : Option (Text × Text))
    → (c == b) ≡ false
    → IsCut b cs o
    → IsCut b (c ∷ cs) (with_byte c o)
unfolding with_byte elem
with_byte-IsCut b c cs none other h = ground (arith, h, other)
with_byte-IsCut b c cs (some (before, after)) other h =
    (ap (λ t. c ∷ t) h.0, ground (arith, h.1, other))

cut-IsCut : (b : ℕ) (text : Text) → IsCut b text (cut b text)
unfolding cut elem
cut-IsCut b [] = refl
cut-IsCut b (c ∷ cs) = elim (Bool-cases (c == b)) [
  | inl same ↦ rw (same, IsCut) (ap (λ d. d ∷ cs) ((==_iff c b).0 same), refl)
  | inr other ↦ rw (other, IsCut) (with_byte-IsCut b c cs (cut b cs) other (cut-IsCut b cs))
]

front-Lacks : (b : ℕ) (xs ys text : Text) → text ≡ xs ++ ys → Lacks b text → Lacks b xs
front-Lacks b xs ys text e h =
    let whole = sym (elem-append b xs ys) ∙ ap (elem b) (sym e) ∙ h in ground (arith, whole)

abbrev HasHost : Option (Text × Text) → Type 0
HasHost none = Unit
HasHost (some (host, port)) = IsHost host

plain-HasHost : (text : Text) (o : Option (Text × Text)) → IsCut 58 text o → HasHost (plain text o)
unfolding plain
plain-HasHost text none h = tt
plain-HasHost text (some (host, port)) h =
    elim (Bool-cases (elem 58 port || (elem 91 text || elem 93 text))) [
      | inl refused ↦ rw (refused, HasHost) tt
      | inr fine ↦
          rw (fine, HasHost)
            (
              front-Lacks 91 host (58 ∷ port) text h.0 (ground (arith, fine)),
              front-Lacks 93 host (58 ∷ port) text h.0 (ground (arith, fine)),
            )
    ]

in_brackets-HasHost :
    (text : Text) (o : Option (Text × Text)) → IsCut 93 text o → HasHost (in_brackets text o)
unfolding in_brackets
in_brackets-HasHost text none h = tt
in_brackets-HasHost text (some (host, [])) h = tt
in_brackets-HasHost text (some (host, c ∷ port)) h =
    elim (Bool-cases (not (c == 58) || (elem 58 port || (elem 91 text || elem 93 (c ∷ port))))) [
      | inl refused ↦ rw (refused, HasHost) tt
      | inr fine ↦
          rw (fine, HasHost)
            (front-Lacks 91 host (93 ∷ c ∷ port) text h.0 (ground (arith, fine)), h.1)
    ]

split_host_port-HasHost : (text : Text) → HasHost (split_host_port text)
unfolding split_host_port
split_host_port-HasHost [] = tt
split_host_port-HasHost (c ∷ cs) = elim (Bool-cases (c == 91)) [
  | inl bracket ↦ rw (bracket, HasHost) (in_brackets-HasHost cs (cut 93 cs) (cut-IsCut 93 cs))
  | inr other ↦
      rw (other, HasHost) (plain-HasHost (c ∷ cs) (cut 58 (c ∷ cs)) (cut-IsCut 58 (c ∷ cs)))
]

-- A host that was split off has no brackets.
pub IsHost-split_host_port :
    (text host port : Text) → split_host_port text ≡ some (host, port) → IsHost host
IsHost-split_host_port text host port e = subst HasHost e (split_host_port-HasHost text)

-- A port that `%d` printed.
abbrev IsPort : Text → Type 0
IsPort port = Lacks 58 port × Lacks 91 port × Lacks 93 port

Lacks-digits : (b : ℕ) (text : Text) → is_digit b ≡ false → All IsDigit text → Lacks b text
unfolding elem
Lacks-digits b [] h d = refl
Lacks-digits b (c ∷ cs) h d = ground (arith, d.0, h, Lacks-digits b cs h d.1)

format_int-IsPort : (z : ℤ) → IsPort (format_int z)
unfolding format_int elem
format_int-IsPort (pos n) =
    let lacks : (b : ℕ) → is_digit b ≡ false → Lacks b (format_uint n) =
      λ b h. Lacks-digits b (format_uint n) h (format_uint-All n) in
    (lacks 58 refl, lacks 91 refl, lacks 93 refl)
format_int-IsPort (negsuc n) =
    let lacks : (b : ℕ) → is_digit b ≡ false → Lacks b (format_uint (suc n)) =
      λ b h. Lacks-digits b (format_uint (suc n)) h (format_uint-All (suc n)) in
    (lacks 58 refl, lacks 91 refl, lacks 93 refl)

plain-join :
    (host port : Text)
    → IsHost host
    → elem 58 host ≡ false
    → IsPort port
    → plain (host ++ 58 ∷ port) (some (host, port)) ≡ some (host, port)
unfolding plain elem
plain-join host port h one_colon p =
    rw (p.0, elem-append 91 host (58 ∷ port), elem-append 93 host (58 ∷ port), h.0, h.1, p.1, p.2)
      refl

in_brackets-join :
    (host port : Text)
    → IsHost host
    → IsPort port
    → in_brackets (host ++ 93 ∷ 58 ∷ port) (some (host, 58 ∷ port)) ≡ some (host, port)
unfolding in_brackets elem
in_brackets-join host port h p = rw (p.0, elem-append 91 host (93 ∷ 58 ∷ port), h.0, p.1, p.2) refl

split_host_port-bracket :
    (host port : Text)
    → IsHost host
    → IsPort port
    → split_host_port (91 ∷ (host ++ 93 ∷ 58 ∷ port)) ≡ some (host, port)
unfolding split_host_port
split_host_port-bracket host port h p =
    ap (in_brackets (host ++ 93 ∷ 58 ∷ port)) (cut-append 93 host (58 ∷ port) h.1)
    ∙ in_brackets-join host port h p

split_host_port-plain :
    (host port : Text)
    → IsHost host
    → elem 58 host ≡ false
    → IsPort port
    → split_host_port (host ++ 58 ∷ port) ≡ some (host, port)
unfolding split_host_port elem
split_host_port-plain [] port h one_colon p =
    ap (plain (58 ∷ port)) (cut-append 58 [] port refl) ∙ plain-join [] port h one_colon p
split_host_port-plain (c ∷ host) port h one_colon p =
    let other : (c == 91) ≡ false = ground (arith, h.0) in
    rw other (
      ap (plain (c ∷ host ++ 58 ∷ port)) (cut-append 58 (c ∷ host) port one_colon)
      ∙ plain-join (c ∷ host) port h one_colon p)

-- A host that was split off and joined with a number is split off again.
pub split_host_port-join :
    (host : Text) (z : ℤ)
    → IsHost host
    → split_host_port (join_host_port host (format_int z)) ≡ some (host, format_int z)
unfolding join_host_port
split_host_port-join host z h = elim (Bool-cases (elem 58 host)) [
  | inl colons ↦ rw colons (split_host_port-bracket host (format_int z) h (format_int-IsPort z))
  | inr one_colon ↦
      rw one_colon (split_host_port-plain host (format_int z) h one_colon (format_int-IsPort z))
]
