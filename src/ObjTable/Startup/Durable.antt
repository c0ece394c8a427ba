-- ===== src/ObjTable/Startup/Durable.antt =====
-- What a new server of go/cmd/gcsobjtable knows that starts over the database of an earlier one.
use babyray.Common.{
  ℕ, ◌≡◌, refl, ap, ◌∙◌, ◌⊎◌, inl, inr, subst, Option, none, some, List, [], Outcome, ok, err,
  count, if◌then◌else◌, arith, ◌==◌, true,
}
use babyray.Common.Integers.{ℤ}
use babyray.Common.Dict.{lookup, or_else, IsDistinct, is_some}
use babyray.ObjTable.Database.{Sql, IsSql}
use babyray.ObjTable.Database
use babyray.ObjTable.Server.{GcsObjServer, new_gcs_obj_server}
use babyray.ObjTable.Recovery.{flush_to_disk}
use babyray.ObjTable.Recovery.Flush.{Flushes, flush_to_disk-Flushes}
use babyray.ObjTable.Locations.{get_node_id}
use babyray.ObjTable.Locations.Found.{is_found, is_any, ok_or, get_node_id-known_nodes}
use babyray.ObjTable.Startup.{
  create_table, create_index, Setup, IsSetup, Timer, off, every, panicking, Started, running, fatal,
  panicked, timed, prepared, index_after, create_object_locations_table, opened, flush_timer,
  start_gcs_obj_server,
}

module _ {D St E : Type 0} (setup : Setup D St E) {rows : D → ℕ → ℕ → ℕ}
    (keeps : IsSetup setup rows) (u n : ℕ) where
  prepared_rows : (db : D) (o : Outcome E St) → rows (prepared setup db o).0 u n ≡ rows db u n
  unfolding prepared
  prepared_rows db (err e) = refl
  prepared_rows db (ok st) = keeps.exec_rows db st u n

  index_after_rows : (r : D × Option E) → rows (index_after setup r).0 u n ≡ rows r.0 u n
  unfolding index_after
  index_after_rows (db, some e) = refl
  index_after_rows (db, none) = prepared_rows db (setup.prepare db create_index)

  -- Making the table, or failing to, changes no row.
  pub create_object_locations_table_rows :
      (db : D) → rows (create_object_locations_table setup db).0 u n ≡ rows db u n
  unfolding create_object_locations_table
  create_object_locations_table_rows db =
      index_after_rows (prepared setup db (setup.prepare db create_table))
      ∙ prepared_rows db (setup.prepare db create_table)

running_server : {D : Type 0} → GcsObjServer D → Started D → GcsObjServer D
running_server s (running t timer) = t
running_server s fatal = s
running_server s panicked = s

timed_server :
    {D : Type 0} (s : GcsObjServer D) (timer : Timer) (t : GcsObjServer D) (timer' : Timer)
    → timed s timer ≡ running t timer'
    → s ≡ t
unfolding timed running_server
timed_server s off t timer' e = ap (running_server s) e
timed_server s (every d) t timer' e = ap (running_server s) e
timed_server s panicking t timer' e = cc

started_server :
    {D St E : Type 0} (setup : Setup D St E) (interval : ℤ) (o : Outcome E D) (t : GcsObjServer D)
    (timer : Timer)
    → opened setup interval o ≡ running t timer
    → (db : D) × (o ≡ ok db)
      × (new_gcs_obj_server (create_object_locations_table setup (setup.no_cache db).0).0 ≡ t)
unfolding opened
started_server setup interval (err e) t timer eq = cc
started_server setup interval (ok db) t timer eq = (db, refl, timed_server _ _ t timer eq)

-- A server that does not start has a reason: the file could not be opened, or the interval is one that
-- time.NewTicker refuses.
abbrev pub StartFault : {D E : Type 0} → ℤ → Outcome E D → Started D → Type 0
StartFault interval o (running t timer) = Unit
StartFault {E} interval o fatal = (e : E) × (o ≡ err e)
StartFault interval o panicked = flush_timer interval ≡ panicking

timed-StartFault :
    {D E : Type 0} (interval : ℤ) (o : Outcome E D) (s : GcsObjServer D) (timer : Timer)
    → flush_timer interval ≡ timer
    → StartFault interval o (timed s timer)
unfolding timed
timed-StartFault interval o s off e = tt
timed-StartFault interval o s (every d) e = tt
timed-StartFault interval o s panicking e = e

opened-StartFault :
    {D St E : Type 0} (setup : Setup D St E) (interval : ℤ) (o : Outcome E D)
    → StartFault interval o (opened setup interval o)
unfolding opened
opened-StartFault setup interval (err e) = (e, refl)
opened-StartFault setup interval (ok db) =
    timed-StartFault interval (ok db)
      (new_gcs_obj_server (create_object_locations_table setup (setup.no_cache db).0).0)
      (flush_timer interval) refl

pub start_gcs_obj_server-StartFault :
    {D St E : Type 0} (setup : Setup D St E) (interval : ℤ) (o : Outcome E D)
    → StartFault interval o (start_gcs_obj_server setup interval o)
unfolding start_gcs_obj_server
start_gcs_obj_server-StartFault setup interval o = opened-StartFault setup interval o

-- How often an object's node is known before a flush: as often as it stands in memory, or, where
-- memory has no list for the object, in the database.
abbrev pub known_count : {D : Type 0} → (D → ℕ → ℕ → ℕ) → GcsObjServer D → ℕ → ℕ → ℕ
known_count rows s uid n =
    if is_some (lookup uid s.object_locations)
    then count n (or_else [] (lookup uid s.object_locations))
    else rows s.database uid n

-- A getNodeId that failed, or that left the cache with a list of these nodes, and found one exactly if
-- that list has one.
abbrev pub Recalls : {D E : Type 0} → ℕ → (ℕ → ℕ) → GcsObjServer D × Outcome E (Option ℕ) → Type 0
Recalls {D} {E} uid nodes (t, o) =
    ((e : E) × (is_found o ≡ err e))
    ⊎ ((is_found o ≡ is_any {E = E} (ok (or_else [] (lookup uid t.object_locations))))
        × ((n : ℕ) → count n (or_else [] (lookup uid t.object_locations)) ≡ nodes n))

Recalls-known :
    {D E : Type 0} (uid : ℕ) (nodes : ℕ → ℕ) (t : GcsObjServer D) (found : Outcome E (Option ℕ))
    (o : Outcome E (List ℕ))
    → is_found found ≡ is_any o
    → or_else [] (lookup uid t.object_locations) ≡ ok_or [] o
    → ((ns : List ℕ) → o ≡ ok ns → (n : ℕ) → count n ns ≡ nodes n)
    → Recalls uid nodes (t, found)
Recalls-known uid nodes t found (err e) same cached counts = inl (e, same)
Recalls-known uid nodes t found (ok ns) same cached counts =
    inr (rw cached same, λ n. ap (count n) cached ∙ counts ns refl n)

Recalls-same :
    {D E : Type 0} (uid : ℕ) (nodes nodes' : ℕ → ℕ) (r : GcsObjServer D × Outcome E (Option ℕ))
    → ((n : ℕ) → nodes n ≡ nodes' n)
    → Recalls uid nodes r
    → Recalls uid nodes' r
Recalls-same uid nodes nodes' r same (inl failed) = inl failed
Recalls-same uid nodes nodes' r same (inr recalled) = inr (recalled.0, λ n. recalled.1 n ∙ same n)

Flushes-known_count :
    {D E : Type 0} (rows : D → ℕ → ℕ → ℕ) (s : GcsObjServer D) (r : GcsObjServer D × Option E)
    → Flushes rows s r
    → r.1 ≡ none
    → (u n : ℕ) → rows r.0.database u n ≡ known_count rows s u n
Flushes-known_count rows s (s', none) flushes e u n = (flushes.1 u n).0
Flushes-known_count rows s (s', some x) flushes e u n = cc

module _ {D Tx St E : Type 0} (q : Sql D Tx E) {rows : D → ℕ → ℕ → ℕ} (laws : IsSql q rows)
    (setup : Setup D St E) (keeps : IsSetup setup rows) where
  new_server-Recalls :
      (intn : ℕ → ℕ) (db : D) (uid : ℕ)
      → Recalls uid (rows db uid) (get_node_id q intn (new_gcs_obj_server db) uid)
  unfolding lookup Database.get_object_locations
  new_server-Recalls intn db uid =
      let t = new_gcs_obj_server db in
      let known = get_node_id-known_nodes q intn t uid uid in
      let self : (uid == uid) ≡ true = ground arith in
      Recalls-known uid (rows db uid) (get_node_id q intn t uid).0 (get_node_id q intn t uid).1
        (q.select_nodes db uid) known.0 (known.1 ∙ rw self refl)
        (λ ns e n. laws.select_nodes_rows db uid n ns e)

  -- After a successful flush a new server, started over a database with the rows that the flush left,
  -- knows of every object the nodes that the old one knew, each as often: those in its memory or, where
  -- it had no list for the object, those on disk. A getNodeId of the new server fails, or it leaves
  -- these nodes in the cache and finds one exactly if there is one. That holds also if the calls that
  -- make the table and its index fail.
  pub start_gcs_obj_server-Recalls :
      (s t : GcsObjServer D) (interval : ℤ) (reopened : Outcome E D) (timer : Timer) (intn : ℕ → ℕ)
      (uid : ℕ)
      → IsDistinct s.object_locations
      → (flush_to_disk q s).1 ≡ none
      → ((db : D)
          → reopened ≡ ok db
          → (u n : ℕ) → rows db u n ≡ rows (flush_to_disk q s).0.database u n)
      → start_gcs_obj_server setup interval reopened ≡ running t timer
      → Recalls uid (known_count rows s uid) (get_node_id q intn t uid)
  unfolding start_gcs_obj_server
  start_gcs_obj_server-Recalls s t interval reopened timer intn uid distinct flushed same started =
      let (db, was_opened, is_new) = started_server setup interval reopened t timer started in
      let created = (create_object_locations_table setup (setup.no_cache db).0).0 in
      subst (λ t'. Recalls uid (known_count rows s uid) (get_node_id q intn t' uid)) is_new
        (Recalls-same uid (rows created uid) (known_count rows s uid)
          (get_node_id q intn (new_gcs_obj_server created) uid)
          (λ n.
            create_object_locations_table_rows setup keeps uid n (setup.no_cache db).0
            ∙ keeps.no_cache_rows db uid n
            ∙ same db was_opened uid n
            ∙ Flushes-known_count rows s (flush_to_disk q s)
                (flush_to_disk-Flushes q laws s distinct) flushed uid n)
          (new_server-Recalls intn created uid))
