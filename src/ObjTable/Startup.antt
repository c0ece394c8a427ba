-- ===== src/ObjTable/Startup.antt =====
-- `createObjectLocationsTable` and `setCacheSizeToZero` of go/cmd/gcsobjtable/db.go, and
-- `NewGCSObjServer` of go/cmd/gcsobjtable/main.go, which starts a server over the database's file.
pub mod Durable
pub mod Restart
mod Tests
use babyray.Common.{
  ℕ, zero, ◌+◌, ◌*◌, ◌%◌, ◌^◌, ◌≡◌, Bool, true, false, ◌&&◌, Option, none, some, Outcome, ok, err,
  ltb, if◌then◌else◌,
}
use babyray.Common.Integers.{ℤ, pos, negsuc, uint64_of}
use babyray.ObjTable.Server.{GcsObjServer, new_gcs_obj_server}

-- The statements that are prepared, both with IF NOT EXISTS.
pub data Ddl : Type 0 where
  create_table create_index : Ddl

-- The calls that set a database up.
pub record Setup (D St E : Type 0) : Type 0 where
  -- db.Exec("PRAGMA cache_size = 0;")
  pub no_cache : D → D × Option E
  pub prepare : D → Ddl → Outcome E St
  pub exec : D → St → D × Option E

-- None of them changes a row: a table that is there stays as it is.
pub record IsSetup {D St E : Type 0} (setup : Setup D St E) (rows : D → ℕ → ℕ → ℕ) : Type 0 where
  pub no_cache_rows : (db : D) (u n : ℕ) → rows (setup.no_cache db).0 u n ≡ rows db u n
  pub exec_rows : (db : D) (st : St) (u n : ℕ) → rows (setup.exec db st).0 u n ≡ rows db u n

-- The flush timer, in nanoseconds.
pub data Timer : Type 0 where
  off : Timer
  every : ℕ → Timer
  -- time.NewTicker panics where the interval is not positive.
  panicking : Timer

-- time.Duration(flushIntervalSec) * time.Second, 64 bits in two's complement
nanoseconds : ℤ → ℕ
unfolding uint64_of
nanoseconds z = (uint64_of z * 10 ^ 9) % 2 ^ 64

timer_for : (interval : ℕ) → Timer
timer_for d = if ltb 0 d && ltb d (2 ^ 63) then every d else panicking

-- -1 disables flushing.
unfoldable pub flush_timer : ℤ → Timer
unfolding timer_for nanoseconds
flush_timer (negsuc zero) = off
flush_timer z = timer_for (nanoseconds z)

-- How the start of a server ends.
pub data Started (D : Type 0) : Type 0 where
  running : GcsObjServer D → Timer → Started D
  fatal : Started D
  panicked : Started D

timed : {D : Type 0} → GcsObjServer D → Timer → Started D
timed s off = running s off
timed s (every d) = running s (every d)
timed s panicking = panicked

module _ {D St E : Type 0} (setup : Setup D St E) where
  prepared : D → Outcome E St → D × Option E
  prepared db (err e) = (db, some e)
  prepared db (ok st) = setup.exec db st

  -- The index, once the table is there.
  index_after : D × Option E → D × Option E
  unfolding prepared
  index_after (db, some e) = (db, some e)
  index_after (db, none) = prepared db (setup.prepare db create_index)

  -- `createObjectLocationsTable`
  unfoldable pub create_object_locations_table : D → D × Option E
  unfolding prepared index_after
  create_object_locations_table db = index_after (prepared db (setup.prepare db create_table))

  opened : ℤ → Outcome E D → Started D
  unfolding timed
  opened flush_interval_sec (err e) = fatal
  opened flush_interval_sec (ok db) =
      let cached = (setup.no_cache db).0 in
      let created = (create_object_locations_table cached).0 in
      timed (new_gcs_obj_server created) (flush_timer flush_interval_sec)

  -- `NewGCSObjServer`, with what sql.Open gives for the file. The errors of the two calls that set
  -- the database up are dropped.
  unfoldable pub start_gcs_obj_server : ℤ → Outcome E D → Started D
  unfolding opened
  start_gcs_obj_server flush_interval_sec database = opened flush_interval_sec database
