-- ===== src/ObjTable/Database/Flush.antt =====
-- What the bulk update of db.go leaves in the database.
use babyray.Common.{
  ◌∙◌, ap, sym, Option, none, some, Outcome, ok, err, elem, ◌≤◌, ℕ, ◌+◌, ◌≡◌, refl, List, [], ◌∷◌,
  ◌++◌, ◌==◌, if◌then◌else◌, count, arith,
}
use babyray.Common.Dict.{Dict, lookup, or_else, IsDistinct, keys, elem-keys}
use babyray.ObjTable.Database.{
  Row, count_rows, rows_of, value_args, Sql, IsSql, after_insert, after_delete, after_begin,
  insert_or_update_object_locations,
}

count_rows-append :
    (u n : ℕ) (xs ys : List Row) → count_rows u n (xs ++ ys) ≡ count_rows u n xs + count_rows u n ys
unfolding count_rows
count_rows-append u n [] ys = omega arith
count_rows-append u n (x ∷ xs) ys = omega (arith, count_rows-append u n xs ys)

count_rows-rows_of :
    (u n uid : ℕ) (ns : List ℕ)
    → count_rows u n (rows_of uid ns) ≡ (if uid == u then count n ns else 0)
unfolding count_rows rows_of count
count_rows-rows_of u n uid [] = ground arith
count_rows-rows_of u n uid (x ∷ ns) = ground (arith, count_rows-rows_of u n uid ns)

-- The rows that a map stands for: each node of the list at its object.
pub count_rows-value_args :
    (u n : ℕ) (m : Dict (List ℕ))
    → IsDistinct m
    → count_rows u n (value_args m) ≡ count n (or_else [] (lookup u m))
unfolding value_args count_rows lookup count
count_rows-value_args u n [] h = refl
count_rows-value_args u n ((j, ns) ∷ m) h = ground (
  arith,
  count_rows-append u n (rows_of j ns) (value_args m),
  count_rows-rows_of u n j ns,
  count_rows-value_args u n m h.1,
)

-- What an update of `db` by the rows of `m` must leave: on success the rows of each object in `m`
-- are replaced, and no other row changes; on an error no row changes.
abbrev pub Updates : {D E : Type 0} → (D → ℕ → ℕ → ℕ) → D → Dict (List ℕ) → D × Option E → Type 0
Updates rows db m (db', none) =
    (u n : ℕ)
    → (rows db' u n ≡ (if elem u (keys m) then count n (or_else [] (lookup u m)) else rows db u n))
      × (rows db' u n ≤ 1)
Updates rows db m (db', some e) = (u n : ℕ) → rows db' u n ≡ rows db u n

module _ {D Tx E : Type 0} (q : Sql D Tx E) {rows : D → ℕ → ℕ → ℕ} (laws : IsSql q rows)
    (m : Dict (List ℕ)) (distinct : IsDistinct m) (db : D) where
  open laws use {
    tx_rows, begin_rows, delete_uids_rows, insert_rows_rows, insert_rows_key, commit_rows,
    commit_failed, rollback_rows,
  }

  -- the rows that the transaction sees after the INSERT
  abbrev Inserted : Tx → Type 0
  Inserted tx =
      (u n : ℕ)
      → (tx_rows tx u n
          ≡ (if elem u (keys m) then 0 else rows db u n) + count n (or_else [] (lookup u m)))
        × (tx_rows tx u n ≤ 1)

  Inserted-row :
      (u n : ℕ) (a : ℕ)
      → a ≡ (if elem u (keys m) then 0 else rows db u n) + count n (or_else [] (lookup u m))
      → a ≡ (if elem u (keys m) then count n (or_else [] (lookup u m)) else rows db u n)
  unfolding count
  Inserted-row u n a h = ground (arith, elem-keys u m)

  commit-Updates :
      (tx : Tx) (db' : D) (o : Option E)
      → q.commit db tx ≡ (db', o)
      → Inserted tx
      → Updates rows db m (db', o)
  commit-Updates tx db' none e h =
      λ u n. (Inserted-row u n _ (commit_at e u n ∙ (h u n).0), rw (commit_at e u n) (h u n).1)
    where
      commit_at : q.commit db tx ≡ (db', none) → (u n : ℕ) → rows db' u n ≡ tx_rows tx u n
      commit_at e u n =
          ap (λ (r : D × Option E). rows r.0 u n) (sym e)
          ∙ commit_rows db tx u n (ap (λ (r : D × Option E). r.1) e)
  commit-Updates tx db' (some x) e h = λ u n.
      ap (λ (r : D × Option E). rows r.0 u n) (sym e)
      ∙ commit_failed db tx x u n (ap (λ (r : D × Option E). r.1) e)

  after_insert-Updates :
      (tx : Tx) (o : Outcome E Tx)
      → q.insert_rows (value_args m) tx ≡ o
      → ((u n : ℕ) → tx_rows tx u n ≡ (if elem u (keys m) then 0 else rows db u n))
      → Updates rows db m (after_insert q db tx o)
  unfolding after_insert
  after_insert-Updates tx (ok tx') e h = commit-Updates tx' _ _ refl (λ u n. (
    ground (
      arith,
      insert_rows_rows (value_args m) tx tx' u n e,
      h u n,
      count_rows-value_args u n m distinct,
    ),
    insert_rows_key (value_args m) tx tx' u n e,
  ))
  after_insert-Updates tx (err x) e h = λ u n. rollback_rows db tx u n

  after_delete-Updates :
      (tx : Tx) (o : Outcome E Tx)
      → q.delete_uids (keys m) tx ≡ o
      → ((u n : ℕ) → tx_rows tx u n ≡ rows db u n)
      → Updates rows db m (after_delete q db (value_args m) tx o)
  unfolding after_delete
  after_delete-Updates tx (ok tx') e h =
      after_insert-Updates tx' _ refl
        (λ u n. ground (arith, delete_uids_rows (keys m) tx tx' u n e, h u n))
  after_delete-Updates tx (err x) e h = λ u n. rollback_rows db tx u n

  after_begin-Updates :
      (o : Outcome E Tx)
      → q.begin db ≡ o
      → Updates rows db m (after_begin q db (keys m) (value_args m) o)
  unfolding after_begin
  after_begin-Updates (ok tx) e = after_delete-Updates tx _ refl (λ u n. begin_rows db tx u n e)
  after_begin-Updates (err x) e = λ u n. refl

  -- The bulk update meets its contract.
  pub insert_or_update_object_locations-Updates :
      Updates rows db m (insert_or_update_object_locations q db m)
  unfolding insert_or_update_object_locations
  insert_or_update_object_locations-Updates = after_begin-Updates _ refl
