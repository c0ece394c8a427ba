-- ===== src/ObjTable/Recovery/Lost.antt =====
-- Which objects RegisterLiveNodes of go/cmd/gcsobjtable/main.go has made again.
use babyray.Common.{
  All, ℕ, ◌≤◌, ◌≡◌, refl, ◌↔◌, inl, inr, Bool, true, false, ◌||◌, Option, none, some, ◌++◌, List,
  [], ◌∷◌, map, arith, ◌==◌, if◌then◌else◌, elem, count, Bool-cases, ==_iff,
}
use babyray.Common.Dict.{
  Dict, lookup, insert, keys, is_some, or_else, IsDistinct, lookup-insert, elem-keys, count-keys,
  insert-IsDistinct,
}
use babyray.Wire.{LiveNodesRequest, GlobalScheduleRequest}
use babyray.ObjTable.Server.{GcsObjServer, is_live}
use babyray.ObjTable.Recovery.{
  generating_node, register_lineage, lineage_known, write_lineage, get_nodes, all_dead, add_uids,
  all_uids, regenerate, regenerate_list, register_live_nodes,
}

add_uids-IsDistinct :
    (uids : List ℕ) (all : Dict Bool) → IsDistinct all → IsDistinct (add_uids uids all)
unfolding add_uids
add_uids-IsDistinct [] all h = h
add_uids-IsDistinct (u ∷ us) all h = add_uids-IsDistinct us _ (insert-IsDistinct u true all h)

elem-add_uids :
    (u : ℕ) (uids : List ℕ) (all : Dict Bool)
    → elem u (keys (add_uids uids all)) ≡ (elem u uids || elem u (keys all))
unfolding add_uids elem
elem-add_uids u [] all = refl
elem-add_uids u (x ∷ xs) all = ground (
  arith,
  elem-add_uids u xs (insert x true all),
  elem-keys u (insert x true all),
  elem-keys u all,
  lookup-insert x u true all,
)

-- A predicate of what an option holds, if it holds something.
abbrev pub Whenever : {A : Type 0} → (A → Type 0) → Option A → Type 0
Whenever P none = Unit
Whenever P (some a) = P a

module _ {D : Type 0} (s : GcsObjServer D) where
  -- The table knows of an object that is being made or that has a list of locations in memory.
  abbrev pub is_known : ℕ → Bool
  is_known uid = is_some (lookup uid s.generating) || is_some (lookup uid s.object_locations)

  elem-all_uids : (uid : ℕ) → elem uid (all_uids s) ≡ is_known uid
  unfolding all_uids keys elem
  elem-all_uids uid = ground (
    arith,
    elem-add_uids uid (keys s.object_locations) (add_uids (keys s.generating) []),
    elem-add_uids uid (keys s.generating) [],
    elem-keys uid s.object_locations,
    elem-keys uid s.generating,
  )

  count-all_uids : (uid : ℕ) → count uid (all_uids s) ≡ (if elem uid (all_uids s) then 1 else 0)
  unfolding all_uids
  count-all_uids uid = count-keys uid _ (
      add_uids-IsDistinct (keys s.object_locations) (add_uids (keys s.generating) [])
        (add_uids-IsDistinct (keys s.generating) [] tt))

  count-regenerate :
      (uid : ℕ) (uids : List ℕ)
      → count uid (regenerate s uids) ≡ (if all_dead s (get_nodes s uid) then count uid uids else 0)
  unfolding regenerate count
  count-regenerate uid [] = ground arith
  count-regenerate uid (u ∷ us) = elim (Bool-cases (u == uid)) [
    | inl same ↦ rw (← (==_iff u uid).0 same) (ground (arith, count-regenerate u us))
    | inr other ↦ ground (arith, count-regenerate uid us)
  ]

  all_dead_iff : (nodes : List ℕ) → (all_dead s nodes ≡ true) ↔ All (λ n. is_live s n ≡ false) nodes
  unfolding all_dead
  all_dead_iff [] = (λ _. tt, λ _. refl)
  all_dead_iff (x ∷ xs) = (
    λ h. (ground arith, (all_dead_iff xs).0 (ground arith)),
    λ h. ground (arith, h.0, (all_dead_iff xs).1 h.1),
  )

  abbrev pub IsDead : ℕ → Type 0
  IsDead n = is_live s n ≡ false

  -- A lost object: the table knows of it, the node that makes it, if one does, is not live, and no
  -- node that its list in memory names is live.
  pub record IsLost (uid : ℕ) : Type 0 where
    pub known : is_known uid ≡ true
    pub maker : Whenever IsDead (lookup uid s.generating)
    pub holders : Whenever (All IsDead) (lookup uid s.object_locations)

  nodes-IsDead_iff :
      (made : Option ℕ) (held : Option (List ℕ))
      → All IsDead (generating_node made ++ or_else [] held)
        ↔ (Whenever IsDead made × Whenever (All IsDead) held)
  unfolding generating_node
  nodes-IsDead_iff none none = (λ _. (tt, tt), λ _. tt)
  nodes-IsDead_iff none (some ns) = (λ h. (tt, h), λ h. h.1)
  nodes-IsDead_iff (some n) none = (λ h. (h.0, tt), λ h. (h.0, tt))
  nodes-IsDead_iff (some n) (some ns) = (λ h. h, λ h. h)

  no_live_iff :
      (uid : ℕ)
      → (all_dead s (get_nodes s uid) ≡ true) ↔ (
          Whenever IsDead (lookup uid s.generating)
          × Whenever (All IsDead) (lookup uid s.object_locations))
  unfolding get_nodes
  no_live_iff uid =
      let both = nodes-IsDead_iff (lookup uid s.generating) (lookup uid s.object_locations) in
      let each = all_dead_iff (get_nodes s uid) in (λ h. both.0 (each.0 h), λ h. each.1 (both.1 h))

  IsLost-of_count : (uid : ℕ) → count uid (regenerate_list s) ≡ 1 → IsLost uid
  unfolding regenerate_list
  IsLost-of_count uid h =
      let dead = (no_live_iff uid).0 (ground (arith, count-regenerate uid (all_uids s))) in
      record {
        known =
            ground
              (arith, count-regenerate uid (all_uids s), count-all_uids uid, elem-all_uids uid);
        maker = dead.0;
        holders = dead.1;
      }

  count_of_lost : (uid : ℕ) → IsLost uid → count uid (regenerate_list s) ≡ 1
  unfolding regenerate_list
  count_of_lost uid lost = ground (
    arith,
    count-regenerate uid (all_uids s),
    count-all_uids uid,
    elem-all_uids uid,
    lost.known,
    (no_live_iff uid).1 (lost.maker, lost.holders),
  )

  count-regenerate_list-le : (uid : ℕ) → count uid (regenerate_list s) ≤ 1
  unfolding regenerate_list
  count-regenerate_list-le uid =
      ground (arith, count-regenerate uid (all_uids s), count-all_uids uid)

-- RegisterLiveNodes replaces the live nodes and no other field. It sends the global scheduler the
-- lineage of the objects of one list, in which an object stands at most once, and stands exactly if
-- it is lost under the new live nodes: being made or with locations in memory, and with no live node
-- that makes it or is in its list.
pub register_live_nodes-IsLost :
    {D : Type 0} (s : GcsObjServer D) (req : LiveNodesRequest) (uid : ℕ)
    → let s' = record s { live_nodes = req.live_nodes } in
      let (after, sent) = register_live_nodes s req in
      (after ≡ s')
      × (sent ≡ map (λ u. lookup u s.lineage) (regenerate_list s'))
      × (count uid (regenerate_list s') ≤ 1)
      × ((count uid (regenerate_list s') ≡ 1) ↔ IsLost s' uid)
unfolding register_live_nodes
register_live_nodes-IsLost s req uid =
    let s' = record s { live_nodes = req.live_nodes } in
    (refl, refl, count-regenerate_list-le s' uid, (IsLost-of_count s' uid, count_of_lost s' uid))

pub register_lineage_new :
    {D : Type 0} (E : Type 0) (s : GcsObjServer D) (g : GlobalScheduleRequest)
    → lookup g.uid s.lineage ≡ none
    → (register_lineage {E = E} s g).0 ≡ record s { lineage = insert g.uid g s.lineage }
unfolding register_lineage lineage_known write_lineage
register_lineage_new E s g h = rw h refl
