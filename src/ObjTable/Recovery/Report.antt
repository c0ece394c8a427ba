-- ===== src/ObjTable/Recovery/Report.antt =====
-- What GetObjectLocations of go/cmd/gcsobjtable/main.go reports to the global scheduler.
use babyray.Common.{
  ℕ, ◌≡◌, refl, ◌∙◌, Option, none, some, List, [], ◌∷◌, arith, ◌==◌, ==_iff, if◌then◌else◌, elem,
}
use babyray.Common.Dict.{Dict, lookup, or_else, lookup-insert}
use babyray.Wire.{LocationByteTuple}
use babyray.ObjTable.Server.{GcsObjServer}
use babyray.ObjTable.Recovery.{add_tuple, locate_all, get_object_locations}

module _ {D : Type 0} (s : GcsObjServer D) (v : ℕ) where
  -- The locations in memory, with the size that is on record or 0.
  abbrev pub report : Option (List ℕ) → Option LocationByteTuple
  report none = none
  report (some ns) = some (record { locations = ns; bytes = or_else 0 (lookup v s.object_sizes) })

  -- The object's report where it is in memory, and `before` where not.
  abbrev reported : Option (List ℕ) → Option LocationByteTuple → Option LocationByteTuple
  reported none before = before
  reported (some ns) before = report (some ns)

  reported-none : (o : Option (List ℕ)) → reported o none ≡ report o
  reported-none none = refl
  reported-none (some ns) = refl

  lookup-add_tuple :
      (uid : ℕ) (o : Option (List ℕ)) (m : Dict LocationByteTuple)
      → lookup uid s.object_locations ≡ o
      → lookup v (add_tuple s uid o m)
        ≡ (if uid == v then reported (lookup v s.object_locations) (lookup v m) else lookup v m)
  unfolding add_tuple
  lookup-add_tuple uid none m e = ground (arith, ==_iff uid v)
  lookup-add_tuple uid (some ns) m e = ground (
    arith,
    lookup-insert uid v (record { locations = ns; bytes = or_else 0 (lookup uid s.object_sizes) })
        m,
    ==_iff uid v,
  )

  lookup-locate_all :
      (args : List ℕ) (m : Dict LocationByteTuple)
      → lookup v (locate_all s args m)
        ≡ (if elem v args then reported (lookup v s.object_locations) (lookup v m) else lookup v m)
  unfolding locate_all elem
  lookup-locate_all [] m = refl
  lookup-locate_all (uid ∷ args) m = ground (
    arith,
    lookup-locate_all args (add_tuple s uid (lookup uid s.object_locations) m),
    lookup-add_tuple uid (lookup uid s.object_locations) m refl,
  )

  -- The response holds an object exactly if it was asked for and has a list of locations in memory,
  -- in whatever order and however often it was asked for: that list, with the recorded size.
  pub get_object_locations-report :
      (args : List ℕ)
      → lookup v (get_object_locations s (record { args = args })).locations
        ≡ (if elem v args then report (lookup v s.object_locations) else none)
  unfolding get_object_locations
  get_object_locations-report args =
      lookup-locate_all args []
      ∙ (unfold lookup in ground (arith, reported-none (lookup v s.object_locations)))
