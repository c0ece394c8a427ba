-- ===== src/ObjTable/Recovery/Flush.antt =====
-- What flushToDisk of go/cmd/gcsobjtable/main.go does to memory and to the database.
use babyray.Common.{
  List, ap, ℕ, ◌≤◌, ◌≡◌, refl, Option, none, some, [], arith, if◌then◌else◌, count,
}
use babyray.Common.Dict.{Dict, lookup, or_else, IsDistinct, is_some, elem-keys}
use babyray.ObjTable.Database.{Sql, IsSql}
use babyray.ObjTable.Database.Flush.{Updates, insert_or_update_object_locations-Updates}
use babyray.ObjTable.Server.{GcsObjServer}
use babyray.ObjTable.Recovery.{flushed, flush_to_disk}

module _ {D Tx E : Type 0} (q : Sql D Tx E) (s : GcsObjServer D) where
  flushed_fields :
      (r : D × Option E)
      → (flushed s r).0
        ≡ record s { database = r.0; object_locations = (flushed s r).0.object_locations }
  unfolding flushed
  flushed_fields (db, none) = refl
  flushed_fields (db, some e) = refl

  -- A flush changes the database and the locations in memory alone.
  pub flush_to_disk-fields :
      (db : D) × (m : Dict (List ℕ)) × ((flush_to_disk q s).0
        ≡ record s { database = db; object_locations = m })
  unfolding flush_to_disk
  flush_to_disk-fields = (_, _, flushed_fields _)

  flushed-IsDistinct :
      (r : D × Option E)
      → IsDistinct s.object_locations
      → IsDistinct (flushed s r).0.object_locations
  unfolding flushed
  flushed-IsDistinct (db, none) h = tt
  flushed-IsDistinct (db, some e) h = h

  pub flush_to_disk-IsDistinct :
      IsDistinct s.object_locations → IsDistinct (flush_to_disk q s).0.object_locations
  unfolding flush_to_disk
  flush_to_disk-IsDistinct = flushed-IsDistinct _

  pub waitlist-flush_to_disk : (flush_to_disk q s).0.waitlist ≡ s.waitlist
  waitlist-flush_to_disk = ap (λ (t : GcsObjServer D). t.waitlist) flush_to_disk-fields.2

-- What a flush must do. On success no location is left in memory, and the database has for each
-- object that was in memory the nodes that memory had, each in one row, and for each other object the
-- rows that it had. On an error memory and the rows of the database are unchanged.
abbrev pub Flushes :
    {D E : Type 0} → (D → ℕ → ℕ → ℕ) → GcsObjServer D → GcsObjServer D × Option E → Type 0
Flushes rows s (s', none) =
    (s' ≡ record s { database = s'.database; object_locations = [] })
    × ((u n : ℕ)
        → (rows s'.database u n ≡ (
            if is_some (lookup u s.object_locations)
            then count n (or_else [] (lookup u s.object_locations))
            else rows s.database u n))
          × (rows s'.database u n ≤ 1))
Flushes rows s (s', some e) =
    (s' ≡ record s { database = s'.database })
    × ((u n : ℕ) → rows s'.database u n ≡ rows s.database u n)

module _ {D Tx E : Type 0} (q : Sql D Tx E) {rows : D → ℕ → ℕ → ℕ} (laws : IsSql q rows)
    (s : GcsObjServer D) (distinct : IsDistinct s.object_locations) where
  flushed-Flushes :
      (r : D × Option E)
      → Updates rows s.database s.object_locations r
      → Flushes rows s (flushed s r)
  unfolding flushed
  flushed-Flushes (db, none) h =
      (refl, λ u n. (ground (arith, (h u n).0, elem-keys u s.object_locations), (h u n).1))
  flushed-Flushes (db, some e) h = (refl, h)

  -- Against a database that keeps to SQLite's contract, flushToDisk does what a flush must do,
  -- whichever of its calls fail.
  pub flush_to_disk-Flushes : Flushes rows s (flush_to_disk q s)
  unfolding flush_to_disk
  flush_to_disk-Flushes =
      flushed-Flushes _
        (insert_or_update_object_locations-Updates q laws s.object_locations distinct s.database)
