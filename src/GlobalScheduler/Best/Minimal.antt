-- ===== src/GlobalScheduler/Best/Minimal.antt =====
-- The worker that getBestWorker (go/cmd/globalscheduler/main.go) picks is live, and none is faster.
use babyray.Common.{
  ℕ, ◌≡◌, refl, ap, ◌∙◌, sym, subst, inl, inr, Bool, true, false, Option, none, some, List, [], ◌∷◌,
  arith, if◌then◌else◌, elem, count, Outcome, ok, err, length, ltb, ◌&&◌, count-pos_of_elem,
  count-eq-zero,
}
use babyray.Common.Dict.{lookup, keys, is_some, elem-keys}
use babyray.Common.Float.{Float32, IsFloat32}
use babyray.Wire.{ObjectLocationsRequest, ObjectLocationsResponse}
use babyray.GlobalScheduler.{HeartbeatEntry, Server}
use babyray.GlobalScheduler.Best.{
  Choice, scan, chosen, best_by, by_locality, queueing_time, waiting_time, byte_counts,
  get_best_worker,
}
use babyray.GlobalScheduler.Best.Scan.{entry_time, live_time, Moves, scan_bound, scan-Moves}

-- The contract of `rand.Shuffle`: the same elements, each as often.
abbrev pub IsShuffle : (List ℕ → List ℕ) → Type 0
IsShuffle shuffle = (xs : List ℕ) (a : ℕ) → count a (shuffle xs) ≡ count a xs

module _ {F : Type 0} (f : Float32 F) where
  abbrev beats : F → Option F → Bool
  beats t none = false
  beats t (some u) = f.lt u t

  -- A best node for the estimated times of the live nodes: it is live, its time is below
  -- math.MaxFloat32, and no live node has a smaller time. There is none if no live node has a time
  -- below math.MaxFloat32.
  abbrev pub IsBest : (ℕ → Option F) → Option ℕ → Type 0
  IsBest times none = (id : ℕ) → beats f.max_float (times id) ≡ false
  IsBest times (some id) =
      (t : F) × (times id ≡ some t)
      × (f.lt t f.max_float ≡ true)
      × ((j : ℕ) → beats t (times j) ≡ false)

module _ {F : Type 0} (f : Float32 F) (now : ℕ) (s : Server F) where
  -- A best node for the estimate that getBestWorker uses: with locality and argument objects, the one
  -- from the object table's answer, and else the queueing times.
  abbrev pub IsChosen :
      {E : Type 0} → (local : Bool) → Outcome E ObjectLocationsResponse → ℕ → Type 0
  IsChosen false o node = IsBest f (live_time now (queueing_time f) s.status) (some node)
  IsChosen true (ok r) node =
      IsBest f (live_time now (waiting_time f (byte_counts (keys s.status) r)) s.status) (some node)
  IsChosen true (err e) node = ⊥

module _ {F : Type 0} (f : Float32 F) (laws : IsFloat32 f) (shuffle : List ℕ → List ℕ)
    (shuffles : IsShuffle shuffle) (now : ℕ) (s : Server F) where
  elem-shuffle :
      (id : ℕ) → is_some (lookup id s.status) ≡ true → elem id (shuffle (keys s.status)) ≡ true
  elem-shuffle id h = ground (
    arith,
    elem-keys id s.status,
    count-pos_of_elem id (keys s.status),
    count-eq-zero id (shuffle (keys s.status)),
    shuffles (keys s.status) id,
  )

  module _ (cost : ℕ → HeartbeatEntry F → F) where
    abbrev times : ℕ → Option F
    times = live_time now cost s.status

    abbrev start : Choice F
    start = record { min_id = 0; min_time = f.max_float; found_best = false }

    abbrev last : Choice F
    last = scan f now cost s.status (shuffle (keys s.status)) start

    no_better :
        (j : ℕ) (o : Option (HeartbeatEntry F))
        → lookup j s.status ≡ o
        → beats f last.min_time (entry_time now cost j o) ≡ false
    no_better j none l = refl
    no_better j (some e) l = ground (
      arith,
      l,
      scan_bound f laws now cost s.status (shuffle (keys s.status)) start j (cost j e),
      elem-shuffle j,
    )

    chosen-IsBest :
        (r : Choice F)
        → r ≡ last
        → Moves f laws now cost s.status start
            (live_time now cost s.status)
            (λ j. elem j (shuffle (keys s.status)))
            r
        → IsBest f (live_time now cost s.status) (chosen f r)
    unfolding chosen
    chosen-IsBest r e (inl same) =
        subst (λ b. IsBest f times (if b then some r.min_id else none))
          (sym (ap (λ (c : Choice F). c.found_best) same))
          (λ j.
            subst (λ t. beats f t (times j) ≡ false)
              (ap (λ (c : Choice F). c.min_time) (sym e ∙ same)) (no_better j _ refl))
    chosen-IsBest r e (inr moved) =
        subst (λ b. IsBest f times (if b then some r.min_id else none)) (sym moved.2)
          (
            r.min_time,
            moved.0,
            moved.3,
            λ j.
                subst (λ t. beats f t (times j) ≡ false) (sym (ap (λ (c : Choice F). c.min_time) e))
                  (no_better j _ refl),
          )

    pub best_by-IsBest : IsBest f (live_time now cost s.status) (best_by f shuffle now cost s)
    unfolding best_by
    best_by-IsBest =
        chosen-IsBest last refl
          (scan-Moves f laws now cost s.status (shuffle (keys s.status)) start)

  best_for :
      {E : Type 0} (local : Bool) (o : Outcome E ObjectLocationsResponse) (node : ℕ)
      → (if local then by_locality f shuffle now s o else best_by f shuffle now (queueing_time f) s)
        ≡ some node
      → IsChosen f now s local o node
  unfolding by_locality
  best_for false o node e =
      subst (IsBest f (live_time now (queueing_time f) s.status)) e
        (best_by-IsBest (queueing_time f))
  best_for true (err x) node e = cc
  best_for true (ok r) node e =
      let cost = waiting_time f (byte_counts (keys s.status) r) in
      subst (IsBest f (live_time now cost s.status)) e (best_by-IsBest cost)

  pub get_best_worker-IsChosen :
      {E : Type 0} (locations : ObjectLocationsRequest → Outcome E ObjectLocationsResponse)
      (flag : Bool) (uids : List ℕ) (node : ℕ)
      → get_best_worker f shuffle now s locations flag uids ≡ some node
      → IsChosen f now s (flag && ltb 0 (length uids)) (locations (record { args = uids })) node
  unfolding get_best_worker
  get_best_worker-IsChosen locations flag uids node e =
      best_for (flag && ltb 0 (length uids)) (locations (record { args = uids })) node e

  -- getBestWorker without locality, or with no argument objects, gives a best node for the estimated
  -- queueing times of the live nodes, whatever the shuffle. With locality and argument objects, of
  -- which the object table reports `r`, it gives a best node for the queueing and transfer times.
  pub get_best_worker-IsBest :
      {E : Type 0} (locations : ObjectLocationsRequest → Outcome E ObjectLocationsResponse)
      (uids : List ℕ) (u : ℕ) (us : List ℕ) (r : ObjectLocationsResponse)
      → locations (record { args = u ∷ us }) ≡ ok r
      → IsBest f
          (live_time now (queueing_time f) s.status)
          (get_best_worker f shuffle now s locations false uids)
        × IsBest f
            (live_time now (queueing_time f) s.status)
            (get_best_worker f shuffle now s locations true [])
        × IsBest f
            (live_time now (waiting_time f (byte_counts (keys s.status) r)) s.status)
            (get_best_worker f shuffle now s locations true (u ∷ us))
  unfolding get_best_worker
  get_best_worker-IsBest locations uids u us r answered = (
    best_by-IsBest (queueing_time f),
    best_by-IsBest (queueing_time f),
    subst (IsBest f (live_time now (waiting_time f (byte_counts (keys s.status) r)) s.status))
        (sym by_locality_eq) (best_by-IsBest (waiting_time f (byte_counts (keys s.status) r))),
  )
    where
      by_locality_eq :
          get_best_worker f shuffle now s locations true (u ∷ us)
          ≡ best_by f shuffle now (waiting_time f (byte_counts (keys s.status) r)) s
      by_locality_eq = ground (arith, answered)
