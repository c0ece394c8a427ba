-- ===== src/ObjTable/Locations/Found.antt =====
-- What getNodeId of go/cmd/gcsobjtable/main.go finds.
use babyray.Common.{
  Bool-cases, ℕ, ◌<◌, ◌≡◌, refl, subst, some-injective, ◌⊎◌, inl, inr, Bool, true, false, Option,
  none, some, List, [], ◌∷◌, arith, ◌==◌, if◌then◌else◌, Outcome, ok, err, length, keep, not, All,
  get_or-All,
}
use babyray.Common.Dict.{lookup, or_else, lookup-insert, lookup-insert_self}
use babyray.ObjTable.Database
use babyray.ObjTable.Database.{Sql}
use babyray.ObjTable.Server.{GcsObjServer, is_live}
use babyray.ObjTable.Locations.{
  nodes_to_return, pick_node, found_nodes, from_disk, from_cache, get_node_id,
}

-- The contract of `rand.Intn`: for a positive `n`, a number below `n`.
abbrev pub IsIntn : (ℕ → ℕ) → Type 0
IsIntn intn = (n : ℕ) → 0 < n → intn n < n

abbrev pub is_found : {E : Type 0} → Outcome E (Option ℕ) → Outcome E Bool
is_found (ok none) = ok false
is_found (ok (some n)) = ok true
is_found (err e) = err e

abbrev pub is_any : {E : Type 0} → Outcome E (List ℕ) → Outcome E Bool
is_any (ok []) = ok false
is_any (ok (n ∷ ns)) = ok true
is_any (err e) = err e

abbrev pub ok_or {ℓ κ} : {E : Type ℓ} {A : Type κ} → A → Outcome E A → A
ok_or d (ok a) = a
ok_or d (err e) = d

pick_node-All :
    (P : ℕ → Type 0) (intn : ℕ → ℕ) (ns : List ℕ) {n : ℕ}
    → All P ns
    → IsIntn intn
    → pick_node intn ns ≡ some n
    → P n
unfolding pick_node
pick_node-All P intn [] h random e = cc
pick_node-All P intn (x ∷ xs) h random e =
    subst P (some-injective _ _ e)
      (get_or-All P (x ∷ xs) (intn (length (x ∷ xs))) x h (random _ (omega arith)))

module _ {D : Type 0} where
  -- Node 0, or a node that is not live.
  abbrev pub IsUnavailable : GcsObjServer D → ℕ → Type 0
  IsUnavailable s n = (n ≡ 0) ⊎ (is_live s n ≡ false)

  keep-IsUnavailable :
      (s : GcsObjServer D) (ns : List ℕ) → All (IsUnavailable s) (keep (λ n. not (is_live s n)) ns)
  unfolding keep
  keep-IsUnavailable s [] = tt
  keep-IsUnavailable s (n ∷ ns) = elim (Bool-cases (is_live s n)) [
    | inl live ↦ rw live (keep-IsUnavailable s ns)
    | inr dead ↦ rw dead (inr dead, keep-IsUnavailable s ns)
  ]

  found_nodes-IsUnavailable :
      (intn : ℕ → ℕ) (s : GcsObjServer D) (ns : List ℕ) {n : ℕ}
      → IsIntn intn
      → found_nodes intn s ns ≡ some n
      → IsUnavailable s n
  unfolding found_nodes
  found_nodes-IsUnavailable intn s [] random e = cc
  found_nodes-IsUnavailable intn s (x ∷ xs) random e =
      pick_node-All (IsUnavailable s) intn (nodes_to_return s (x ∷ xs))
        (inl refl, keep-IsUnavailable s (x ∷ xs)) random e

  from_disk-IsUnavailable :
      {E : Type 0} (intn : ℕ → ℕ) (s : GcsObjServer D) (uid : ℕ) (o : Outcome E (List ℕ)) {n : ℕ}
      → IsIntn intn
      → (from_disk intn s uid o).1 ≡ ok (some n)
      → IsUnavailable s n
  unfolding from_disk
  from_disk-IsUnavailable intn s uid (err x) random e = cc
  from_disk-IsUnavailable intn s uid (ok ns) random e =
      found_nodes-IsUnavailable intn s ns random (cc)

  from_cache-IsUnavailable :
      {Tx E : Type 0} (q : Sql D Tx E) (intn : ℕ → ℕ) (s : GcsObjServer D) (uid : ℕ) (ns : List ℕ)
      {n : ℕ}
      → IsIntn intn
      → (from_cache q intn s uid ns).1 ≡ ok (some n)
      → IsUnavailable s n
  unfolding from_cache
  from_cache-IsUnavailable q intn s uid [] random e = from_disk-IsUnavailable intn s uid _ random e
  from_cache-IsUnavailable q intn s uid (x ∷ xs) random e =
      found_nodes-IsUnavailable intn s (x ∷ xs) random (cc)

  -- Whatever the database answers and whichever index is drawn, a node that getNodeId gives is
  -- node 0 or one that is not live.
  pub get_node_id-IsUnavailable :
      {Tx E : Type 0} (q : Sql D Tx E) (intn : ℕ → ℕ) (s : GcsObjServer D) (uid n : ℕ)
      → IsIntn intn
      → (get_node_id q intn s uid).1 ≡ ok (some n)
      → (n ≡ 0) ⊎ (is_live s n ≡ false)
  unfolding get_node_id
  get_node_id-IsUnavailable q intn s uid n random e =
      from_cache-IsUnavailable q intn s uid _ random e

  abbrev pub nodes_or_disk :
      {Tx E : Type 0} → Sql D Tx E → GcsObjServer D → ℕ → List ℕ → Outcome E (List ℕ)
  nodes_or_disk q s uid [] = Database.get_object_locations q s.database uid
  nodes_or_disk q s uid (n ∷ ns) = ok (n ∷ ns)

  -- What the cache has for an object, and what the database has where that is nothing.
  abbrev pub known_nodes : {Tx E : Type 0} → Sql D Tx E → GcsObjServer D → ℕ → Outcome E (List ℕ)
  known_nodes q s uid = nodes_or_disk q s uid (or_else [] (lookup uid s.object_locations))

  found_nodes-is_found :
      {E : Type 0} (intn : ℕ → ℕ) (s : GcsObjServer D) (ns : List ℕ)
      → is_found {E = E} (ok (found_nodes intn s ns)) ≡ is_any {E = E} (ok ns)
  unfolding found_nodes
  found_nodes-is_found intn s [] = refl
  found_nodes-is_found intn s (n ∷ ns) = refl

  from_disk-is_found :
      {E : Type 0} (intn : ℕ → ℕ) (s : GcsObjServer D) (uid : ℕ) (o : Outcome E (List ℕ)) (v : ℕ)
      → or_else [] (lookup uid s.object_locations) ≡ []
      → (is_found (from_disk intn s uid o).1 ≡ is_any o)
        × (or_else [] (lookup v (from_disk intn s uid o).0.object_locations)
            ≡ (if uid == v then ok_or [] o else or_else [] (lookup v s.object_locations)))
  unfolding from_disk
  from_disk-is_found intn s uid (err x) v h = (refl, ground (arith, h))
  from_disk-is_found intn s uid (ok ns) v h =
      (found_nodes-is_found intn s ns, ground (arith, lookup-insert uid v ns s.object_locations))

  from_cache-is_found :
      {Tx E : Type 0} (q : Sql D Tx E) (intn : ℕ → ℕ) (s : GcsObjServer D) (uid : ℕ) (ns : List ℕ)
      (v : ℕ)
      → or_else [] (lookup uid s.object_locations) ≡ ns
      → (is_found (from_cache q intn s uid ns).1 ≡ is_any (nodes_or_disk q s uid ns))
        × (or_else [] (lookup v (from_cache q intn s uid ns).0.object_locations) ≡ (
            if uid == v
            then ok_or [] (nodes_or_disk q s uid ns)
            else or_else [] (lookup v s.object_locations)))
  unfolding from_cache
  from_cache-is_found q intn s uid [] v h = from_disk-is_found intn s uid _ v h
  from_cache-is_found q intn s uid (n ∷ ns) v h =
      (found_nodes-is_found intn s (n ∷ ns), ground (arith, h))

  -- getNodeId finds a node exactly if the cache has one for the object or, where it has none, the
  -- database has one; it fails exactly if it asks the database and that fails. After it the cache has
  -- what was known of the object, and of every other object what it had before.
  pub get_node_id-known_nodes :
      {Tx E : Type 0} (q : Sql D Tx E) (intn : ℕ → ℕ) (s : GcsObjServer D) (uid v : ℕ)
      → (is_found (get_node_id q intn s uid).1 ≡ is_any (known_nodes q s uid))
        × (or_else [] (lookup v (get_node_id q intn s uid).0.object_locations) ≡ (
            if uid == v
            then ok_or [] (known_nodes q s uid)
            else or_else [] (lookup v s.object_locations)))
  unfolding get_node_id
  get_node_id-known_nodes q intn s uid v = from_cache-is_found q intn s uid _ v refl

  from_disk-missed :
      {E : Type 0} (intn : ℕ → ℕ) (s : GcsObjServer D) (uid : ℕ) (o : Outcome E (List ℕ))
      → o ≡ ok []
      → lookup uid (from_disk intn s uid o).0.object_locations ≡ some []
  unfolding from_disk
  from_disk-missed intn s uid (err e) h = cc
  from_disk-missed intn s uid (ok []) h = lookup-insert_self uid [] s.object_locations
  from_disk-missed intn s uid (ok (n ∷ ns)) h = cc

  from_cache-missed :
      {Tx E : Type 0} (q : Sql D Tx E) (intn : ℕ → ℕ) (s : GcsObjServer D) (uid : ℕ) (ns : List ℕ)
      → nodes_or_disk q s uid ns ≡ ok []
      → lookup uid (from_cache q intn s uid ns).0.object_locations ≡ some []
  unfolding from_cache
  from_cache-missed q intn s uid [] h = from_disk-missed intn s uid _ h
  from_cache-missed q intn s uid (n ∷ ns) h = cc

  -- After a lookup of an object of which no node is known, its entry in the cache is empty.
  pub get_node_id-missed :
      {Tx E : Type 0} (q : Sql D Tx E) (intn : ℕ → ℕ) (s : GcsObjServer D) (uid : ℕ)
      → known_nodes q s uid ≡ ok []
      → lookup uid (get_node_id q intn s uid).0.object_locations ≡ some []
  unfolding get_node_id
  get_node_id-missed q intn s uid h =
      from_cache-missed q intn s uid (or_else [] (lookup uid s.object_locations)) h
