-- ===== src/GlobalScheduler/Best/Bytes.antt =====
-- How many bytes getBestWorker (go/cmd/globalscheduler/main.go) takes a node to be short of.
use babyray.Common.{
  ℕ, ◌+◌, ◌%◌, ◌^◌, ◌<◌, ◌≡◌, refl, List, [], ◌∷◌, arith, ◌==◌, ==_iff, if◌then◌else◌,
}
use babyray.Common.Dict.{Dict, lookup, insert, or_else, lookup-insert}
use babyray.Wire.{LocationByteTuple, ObjectLocationsResponse}
use babyray.GlobalScheduler.Best.{
  ByteCounts, u64_add, u64_sub, init_counts, count_bytes, count_all, byte_counts,
}

-- The bytes of one object at each place of a list that is not `id`, and at each that is.
away_of : ℕ → ℕ → List ℕ → ℕ
away_of id bytes [] = 0
away_of id bytes (loc ∷ locs) = (if loc == id then 0 else bytes) + away_of id bytes locs

-- The bytes of all the reported copies that are not at a node.
pub bytes_away : ℕ → Dict LocationByteTuple → ℕ
unfolding away_of
bytes_away id [] = 0
bytes_away id ((uid, val) ∷ m) = away_of id val.bytes val.locations + bytes_away id m

abbrev at_node : ℕ → ByteCounts → ℕ
at_node id c = or_else 0 (lookup id c.location_to_bytes)

-- `total` is the bytes at the node and `n` more, as `uint64`s.
abbrev IsShort : ℕ → ℕ → ByteCounts → Type 0
IsShort id n c =
    (c.total ≡ (at_node id c + n) % 2 ^ 64) × (at_node id c < 2 ^ 64) × (c.total < 2 ^ 64)

abbrev add_copy : ℕ → ℕ → ByteCounts → ByteCounts
add_copy bytes loc c = record {
  location_to_bytes =
      insert loc (u64_add (or_else 0 (lookup loc c.location_to_bytes)) bytes) c.location_to_bytes;
  total = u64_add c.total bytes;
}

add_copy-IsShort :
    (id n bytes loc : ℕ) (c : ByteCounts)
    → IsShort id n c
    → IsShort id (n + (if loc == id then 0 else bytes)) (add_copy bytes loc c)
add_copy-IsShort id n bytes loc c h = ground (
  arith,
  lookup-insert loc id (u64_add (or_else 0 (lookup loc c.location_to_bytes)) bytes)
      c.location_to_bytes,
  ==_iff loc id,
)

count_bytes-IsShort :
    (id n bytes : ℕ) (locs : List ℕ) (c : ByteCounts)
    → IsShort id n c
    → IsShort id (n + away_of id bytes locs) (count_bytes bytes locs c)
unfolding count_bytes away_of
count_bytes-IsShort id n bytes [] c h = omega arith
count_bytes-IsShort id n bytes (loc ∷ locs) c h = omega (
  arith,
  count_bytes-IsShort id (n + (if loc == id then 0 else bytes)) bytes locs (add_copy bytes loc c)
      (add_copy-IsShort id n bytes loc c h),
)

count_all-IsShort :
    (id n : ℕ) (m : Dict LocationByteTuple) (c : ByteCounts)
    → IsShort id n c
    → IsShort id (n + bytes_away id m) (count_all m c)
unfolding count_all bytes_away
count_all-IsShort id n [] c h = omega arith
count_all-IsShort id n ((uid, val) ∷ m) c h = omega (
  arith,
  count_all-IsShort id (n + away_of id val.bytes val.locations) m
      (count_bytes val.bytes val.locations c)
      (count_bytes-IsShort id n val.bytes val.locations c h),
)

init_counts-zero :
    (id : ℕ) (ids : List ℕ) (m : Dict ℕ)
    → or_else 0 (lookup id m) ≡ 0
    → or_else 0 (lookup id (init_counts ids m)) ≡ 0
unfolding init_counts
init_counts-zero id [] m h = h
init_counts-zero id (i ∷ ids) m h =
    init_counts-zero id ids (insert i 0 m) (ground (arith, lookup-insert i id 0 m))

-- The size that the transfer time of a node is computed from, `total - bytes` on `uint64`s, is the
-- bytes of the reported copies that are not at that node, modulo 2 ^ 64, also where the sums wrap.
pub transfer_bytes :
    (id : ℕ) (ids : List ℕ) (r : ObjectLocationsResponse)
    → let c = byte_counts ids r in
      u64_sub c.total (or_else 0 (lookup id c.location_to_bytes))
      ≡ bytes_away id r.locations % 2 ^ 64
unfolding byte_counts
transfer_bytes id ids r = omega (
  arith,
  count_all-IsShort id 0 r.locations (record { location_to_bytes = init_counts ids []; total = 0 })
      (omega (arith, init_counts-zero id ids [] (unfold lookup in refl))),
)
