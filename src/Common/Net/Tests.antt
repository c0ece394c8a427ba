-- ===== src/Common/Net/Tests.antt =====
-- Addresses that `net.SplitHostPort` takes and refuses, and what RequestLocation makes of them.
use mathlib.Core.Path.{◌≡◌, refl}
use mathlib.Core.Option.{none, some}
use babyray.Common.Lists.{elem}
use babyray.Common.Text.{ascii}
use babyray.Common.Net.{with_byte, cut, plain, in_brackets, split_host_port, join_host_port}

host_of_four : split_host_port (ascii "10.0.0.3:41234") ≡ some (ascii "10.0.0.3", ascii "41234")
unfolding split_host_port plain cut with_byte elem
host_of_four = refl

host_of_six : split_host_port (ascii "[::1]:41234") ≡ some (ascii "::1", ascii "41234")
unfolding split_host_port in_brackets cut with_byte elem
host_of_six = refl

no_port : split_host_port (ascii "node3") ≡ none
unfolding split_host_port plain cut with_byte
no_port = refl

open_brackets : split_host_port (ascii "[::1") ≡ none
unfolding split_host_port in_brackets cut with_byte
open_brackets = refl

bare_six : split_host_port (ascii "fe80::1:80") ≡ none
unfolding split_host_port plain cut with_byte elem
bare_six = refl

two_ports : split_host_port (ascii "[::1]:80:81") ≡ none
unfolding split_host_port in_brackets cut with_byte elem
two_ports = refl

joined_six : join_host_port (ascii "::1") (ascii "50000") ≡ ascii "[::1]:50000"
unfolding join_host_port elem
joined_six = refl
