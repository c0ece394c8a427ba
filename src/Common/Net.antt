-- ===== src/Common/Net.antt =====
-- Go's `net.SplitHostPort`, whose errors are not told apart, and `net.JoinHostPort`.
pub mod Rejoin
mod Tests
use babyray.Common.Tests.{◌==◌, ==_iff, if◌then◌else◌, Bool-cases}
use babyray.Common.Lists.{elem, elem-append, All, All-weaken}
use babyray.Common.Text.{Text, IsDigit, is_digit, format_uint, format_uint-All}
use babyray.Common.Integers.{ℤ, pos, negsuc, format_int}
use Prim.Native.Nat.{ℕ, suc}
use mathlib.Core.Path.{◌≡◌, refl, ap, sym, ◌∙◌}
use mathlib.Core.Logic.{inl, inr}
use mathlib.Core.Bool.{Bool, true, false, ◌||◌, not}
use mathlib.Core.Option.{Option, none, some}
use mathlib.Core.List.{List, [], ◌∷◌, ◌++◌}
use native.Mathlib.Omega.{arith}

with_byte : ℕ → Option (Text × Text) → Option (Text × Text)
with_byte c none = none
with_byte c (some (before, after)) = some (c ∷ before, after)

-- What stands before the first such byte, and what comes behind it.
cut : ℕ → Text → Option (Text × Text)
unfolding with_byte
cut b [] = none
cut b (c ∷ cs) = let more = with_byte c (cut b cs) in if c == b then some ([], cs) else more

-- A host without brackets: the only colon ends it.
plain : Text → Option (Text × Text) → Option (Text × Text)
unfolding elem
plain text none = none
plain text (some (host, port)) =
    if elem 58 port || (elem 91 text || elem 93 text) then none else some (host, port)

-- A host in brackets, by the text behind the first one: the last colon follows the closing one.
in_brackets : Text → Option (Text × Text) → Option (Text × Text)
unfolding elem
in_brackets text none = none
in_brackets text (some (host, [])) = none
in_brackets text (some (host, c ∷ port)) =
    if not (c == 58) || (elem 58 port || (elem 91 text || elem 93 (c ∷ port)))
    then none
    else some (host, port)

unfoldable pub split_host_port : Text → Option (Text × Text)
unfolding cut plain in_brackets
split_host_port [] = none
split_host_port (c ∷ cs) =
    if c == 91 then in_brackets cs (cut 93 cs) else plain (c ∷ cs) (cut 58 (c ∷ cs))

unfoldable pub join_host_port : Text → Text → Text
unfolding elem
join_host_port host port = if elem 58 host then 91 ∷ (host ++ 93 ∷ 58 ∷ port) else host ++ 58 ∷ port
