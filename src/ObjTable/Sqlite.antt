-- ===== src/ObjTable/Sqlite.antt =====
-- A concrete database for the interface of go/cmd/gcsobjtable/db.go: a list of rows, with the primary
-- key checked, and every other call succeeding. It shows that the contract can be met.
use babyray.Common.{
  ℕ, ◌+◌, ◌≤◌, ◌≡◌, refl, Bool, true, ◌&&◌, none, List, [], ◌∷◌, ◌++◌, arith, ◌==◌, ==_iff,
  if◌then◌else◌, Outcome, ok, err, elem, count,
}
use babyray.ObjTable.Database.{Row, Sql, IsSql, count_rows}

pub data SqlError : Type 0 where
  syntax unique : SqlError

-- Whether no row stands twice.
distinct_rows : List Row → Bool
distinct_rows [] = true
distinct_rows ((u, n) ∷ rs) = (count_rows u n rs == 0) && distinct_rows rs

unfoldable pub without : List ℕ → List Row → List Row
without us [] = []
without us ((u, n) ∷ rs) = let rest = without us rs in if elem u us then rest else (u, n) ∷ rest

unfoldable pub nodes_at : ℕ → List Row → List ℕ
nodes_at u [] = []
nodes_at u ((v, n) ∷ rs) = let rest = nodes_at u rs in if v == u then n ∷ rest else rest

unfoldable pub inserted : List Row → List Row → Outcome SqlError (List Row)
unfolding distinct_rows
inserted [] tx = err syntax
inserted (r ∷ rs) tx = if distinct_rows (tx ++ (r ∷ rs)) then ok (tx ++ (r ∷ rs)) else err unique

abbrev pub sqlite : Sql (List Row) (List Row) SqlError
sqlite = record {
  begin = λ db. ok db;
  delete_uids = λ us tx. ok (without us tx);
  insert_rows = inserted;
  commit = λ db tx. (tx, none);
  rollback = λ db tx. db;
  select_nodes = λ db u. ok (nodes_at u db);
}

abbrev pub row_count : List Row → ℕ → ℕ → ℕ
row_count db u n = count_rows u n db

count_rows-append :
    (u n : ℕ) (xs ys : List Row) → count_rows u n (xs ++ ys) ≡ count_rows u n xs + count_rows u n ys
unfolding count_rows
count_rows-append u n [] ys = omega arith
count_rows-append u n (x ∷ xs) ys = omega (arith, count_rows-append u n xs ys)

distinct_rows-le : (u n : ℕ) (rs : List Row) → distinct_rows rs ≡ true → count_rows u n rs ≤ 1
unfolding distinct_rows count_rows
distinct_rows-le u n [] h = omega arith
distinct_rows-le u n ((v, k) ∷ rs) h =
    ground (arith, distinct_rows-le u n rs, ==_iff v u, ==_iff k n)

count_rows-without :
    (u n : ℕ) (us : List ℕ) (rs : List Row)
    → count_rows u n (without us rs) ≡ (if elem u us then 0 else count_rows u n rs)
unfolding without count_rows
count_rows-without u n us [] = ground arith
count_rows-without u n us ((v, k) ∷ rs) = ground (arith, count_rows-without u n us rs, ==_iff v u)

count-nodes_at : (u n : ℕ) (rs : List Row) → count n (nodes_at u rs) ≡ count_rows u n rs
unfolding nodes_at count_rows count
count-nodes_at u n [] = refl
count-nodes_at u n ((v, k) ∷ rs) = ground (arith, count-nodes_at u n rs)

inserted_rows :
    (rs tx tx' : List Row) (u n : ℕ)
    → inserted rs tx ≡ ok tx'
    → (count_rows u n tx' ≡ count_rows u n tx + count_rows u n rs) × (count_rows u n tx' ≤ 1)
unfolding inserted
inserted_rows [] tx tx' u n e = cc
inserted_rows (r ∷ rs) tx tx' u n e =
    ground (arith, count_rows-append u n tx (r ∷ rs), distinct_rows-le u n (tx ++ (r ∷ rs)))

pub sqlite-IsSql : IsSql sqlite row_count
sqlite-IsSql = record {
  tx_rows = row_count;
  begin_rows = λ db tx u n e. ground arith;
  delete_uids_rows = λ us tx tx' u n e. ground (arith, count_rows-without u n us tx);
  insert_rows_rows = λ rs tx tx' u n e. (inserted_rows rs tx tx' u n e).0;
  insert_rows_key = λ rs tx tx' u n e. (inserted_rows rs tx tx' u n e).1;
  insert_no_rows = λ tx. (syntax, unfold inserted in refl);
  commit_rows = λ db tx u n e. refl;
  commit_failed = λ db tx x u n e. cc;
  rollback_rows = λ db tx u n. refl;
  select_nodes_rows = λ db u n ns e. ground (arith, count-nodes_at u n db);
}
