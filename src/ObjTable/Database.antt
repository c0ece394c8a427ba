-- ===== src/ObjTable/Database.antt =====
-- go/cmd/gcsobjtable/db.go: object locations in SQLite. The database itself is a parameter: `Sql` has
-- the calls that the code makes, and `IsSql` what the code relies on. An error is a value of `E`.
pub mod Flush
use babyray.Common.{
  ℕ, zero, ◌+◌, ◌≤◌, ◌≡◌, Bool, Option, none, some, List, [], ◌∷◌, ◌++◌, map, Outcome, ok, err,
  ◌==◌, ◌&&◌, if◌then◌else◌, elem, count,
}
use babyray.Common.Dict.{Dict, keys}

-- One row of the table `object_locations`: (object_uid, node_id).
abbrev pub Row : Type 0
Row = ℕ × ℕ

-- `D` is a database, `Tx` an open transaction.
pub record Sql (D Tx E : Type 0) : Type 0 where
  -- db.Begin()
  pub begin : D → Outcome E Tx
  -- DELETE FROM object_locations WHERE object_uid IN (?,…)
  pub delete_uids : List ℕ → Tx → Outcome E Tx
  -- INSERT INTO object_locations (object_uid, node_id) VALUES (?, ?),…
  pub insert_rows : List Row → Tx → Outcome E Tx
  -- tx.Commit(), with the database after it
  pub commit : D → Tx → D × Option E
  -- tx.Rollback(), its own error is ignored
  pub rollback : D → Tx → D
  -- SELECT node_id FROM object_locations WHERE object_uid = ?, with the scan of its rows
  pub select_nodes : D → ℕ → Outcome E (List ℕ)

abbrev pub row_is : ℕ → ℕ → Row → Bool
row_is uid node (u, n) = u == uid && n == node

-- How often a row stands in a list of rows.
unfoldable pub count_rows : ℕ → ℕ → List Row → ℕ
count_rows uid node [] = 0
count_rows uid node (r ∷ rs) = (if row_is uid node r then 1 else 0) + count_rows uid node rs

-- What SQLite documents of these calls, over the number of rows (uid, node) in a database or in an
-- open transaction. The order in which a SELECT without ORDER BY gives rows is left open.
pub record IsSql {D Tx E : Type 0} (q : Sql D Tx E) (rows : D → ℕ → ℕ → ℕ) : Type 0 where
  -- the rows that a transaction sees
  pub tx_rows : Tx → ℕ → ℕ → ℕ
  pub begin_rows : (db : D) (tx : Tx) (u n : ℕ) → q.begin db ≡ ok tx → tx_rows tx u n ≡ rows db u n
  pub delete_uids_rows :
      (us : List ℕ) (tx tx' : Tx) (u n : ℕ)
      → q.delete_uids us tx ≡ ok tx'
      → tx_rows tx' u n ≡ (if elem u us then 0 else tx_rows tx u n)
  pub insert_rows_rows :
      (rs : List Row) (tx tx' : Tx) (u n : ℕ)
      → q.insert_rows rs tx ≡ ok tx'
      → tx_rows tx' u n ≡ tx_rows tx u n + count_rows u n rs
  -- PRIMARY KEY (object_uid, node_id)
  pub insert_rows_key :
      (rs : List Row) (tx tx' : Tx) (u n : ℕ) → q.insert_rows rs tx ≡ ok tx' → tx_rows tx' u n ≤ 1
  -- VALUES wants at least one row: without one it is a syntax error.
  pub insert_no_rows : (tx : Tx) → (e : E) × (q.insert_rows [] tx ≡ err e)
  pub commit_rows :
      (db : D) (tx : Tx) (u n : ℕ)
      → (q.commit db tx).1 ≡ none
      → rows (q.commit db tx).0 u n ≡ tx_rows tx u n
  -- A commit that fails makes nothing of the transaction visible.
  pub commit_failed :
      (db : D) (tx : Tx) (e : E) (u n : ℕ)
      → (q.commit db tx).1 ≡ some e
      → rows (q.commit db tx).0 u n ≡ rows db u n
  pub rollback_rows : (db : D) (tx : Tx) (u n : ℕ) → rows (q.rollback db tx) u n ≡ rows db u n
  pub select_nodes_rows :
      (db : D) (u n : ℕ) (ns : List ℕ) → q.select_nodes db u ≡ ok ns → count n ns ≡ rows db u n

-- The arguments of the bulk INSERT: a row for each node of each object.
unfoldable pub rows_of : ℕ → List ℕ → List Row
rows_of uid [] = []
rows_of uid (n ∷ ns) = (uid, n) ∷ rows_of uid ns

unfoldable pub value_args : Dict (List ℕ) → List Row
unfolding rows_of
value_args [] = []
value_args ((uid, ns) ∷ m) = rows_of uid ns ++ value_args m

module _ {D Tx E : Type 0} (q : Sql D Tx E) where
  -- after tx.Exec(insertSQL, …)
  after_insert : D → Tx → Outcome E Tx → D × Option E
  after_insert db tx (ok tx') = q.commit db tx'
  after_insert db tx (err e) = (q.rollback db tx, some e)

  -- after tx.Exec(deleteSQL, …)
  after_delete : D → List Row → Tx → Outcome E Tx → D × Option E
  unfolding after_insert
  after_delete db rs tx (ok tx') = after_insert db tx' (q.insert_rows rs tx')
  after_delete db rs tx (err e) = (q.rollback db tx, some e)

  after_begin : D → List ℕ → List Row → Outcome E Tx → D × Option E
  unfolding after_delete
  after_begin db us rs (ok tx) = after_delete db rs tx (q.delete_uids us tx)
  after_begin db us rs (err e) = (db, some e)

  -- `insertOrUpdateObjectLocations`: the database after it, and its error.
  unfoldable pub insert_or_update_object_locations : D → Dict (List ℕ) → D × Option E
  unfolding after_begin keys value_args
  insert_or_update_object_locations db m = after_begin db (keys m) (value_args m) (q.begin db)

  -- `getObjectLocations`; the empty list if there is no row.
  unfoldable pub get_object_locations : D → ℕ → Outcome E (List ℕ)
  get_object_locations = q.select_nodes
