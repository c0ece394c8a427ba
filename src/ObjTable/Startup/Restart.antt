-- ===== src/ObjTable/Startup/Restart.antt =====
-- The object table of go/cmd/gcsobjtable over a restart: a server that ran, flushed and stopped, and the
-- one that starts over its database.
use babyray.Common.{ℕ, ◌≡◌, none, List, All, Outcome, ok}
use babyray.Common.Integers.{ℤ}
use babyray.ObjTable.Database.{Sql, IsSql}
use babyray.ObjTable.Server.{GcsObjServer, new_gcs_obj_server}
use babyray.ObjTable.Recovery.{flush_to_disk}
use babyray.ObjTable.Locations.{get_node_id}
use babyray.ObjTable.Trace.{Call, run}
use babyray.ObjTable.Trace.Invariant.{IsDecoded, run-IsWellFormed}
use babyray.ObjTable.Startup.{Setup, IsSetup, Timer, running, start_gcs_obj_server}
use babyray.ObjTable.Startup.Durable.{Recalls, known_count, start_gcs_obj_server-Recalls}

module _ {D Tx St E : Type 0} (q : Sql D Tx E) {rows : D → ℕ → ℕ → ℕ} (laws : IsSql q rows)
    (setup : Setup D St E) (keeps : IsSetup setup rows) (port : ℤ) (db : D) where
  abbrev pub after : List Call → GcsObjServer D
  after calls = (run q port (new_gcs_obj_server db) calls).0

  -- After any calls with decoded messages and any flushes, from an empty table, and then a flush that
  -- succeeds, a new server over a database with the rows that the flush left knows of every object
  -- the nodes that the old one knew before that flush, each as often: those in its memory or, where
  -- it had no list for the object, those on disk. A getNodeId of the new server fails, or it leaves
  -- these nodes in the cache and finds one exactly if there is one. That holds also if the calls that
  -- make the table and its index fail.
  pub run-Recalls :
      (calls : List Call) (t : GcsObjServer D) (interval : ℤ) (reopened : Outcome E D)
      (timer : Timer) (intn : ℕ → ℕ) (uid : ℕ)
      → All IsDecoded calls
      → (flush_to_disk q (after calls)).1 ≡ none
      → ((db' : D)
          → reopened ≡ ok db'
          → (u n : ℕ) → rows db' u n ≡ rows (flush_to_disk q (after calls)).0.database u n)
      → start_gcs_obj_server setup interval reopened ≡ running t timer
      → Recalls uid (known_count rows (after calls) uid) (get_node_id q intn t uid)
  run-Recalls calls t interval reopened timer intn uid decoded =
      start_gcs_obj_server-Recalls q laws setup keeps (after calls) t interval reopened timer intn
        uid (run-IsWellFormed q port db calls decoded).object_locations
