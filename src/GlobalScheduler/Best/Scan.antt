-- ===== src/GlobalScheduler/Best/Scan.antt =====
-- What the loop of getBestWorker (go/cmd/globalscheduler/main.go) over the nodes does to the choice.
use babyray.Common.{
  ℕ, ◌≡◌, refl, ◌∙◌, ◌⊎◌, inl, inr, Bool, true, false, Option, none, some, List, [], ◌∷◌, arith,
  ◌==◌, ==_iff, if◌then◌else◌, elem, Bool-cases,
}
use babyray.Common.Dict.{Dict, lookup}
use babyray.Common.Float.{Float32, IsFloat32}
use babyray.GlobalScheduler.{HeartbeatEntry, is_recent}
use babyray.GlobalScheduler.Best.{Choice, consider, scan}

module _ {F : Type 0} (now : ℕ) (cost : ℕ → HeartbeatEntry F → F) where
  abbrev pub entry_time : ℕ → Option (HeartbeatEntry F) → Option F
  entry_time id none = none
  entry_time id (some e) = if is_recent now e then some (cost id e) else none

  -- The estimated time of a node, if it has a recent heartbeat.
  abbrev pub live_time : Dict (HeartbeatEntry F) → ℕ → Option F
  live_time status id = entry_time id (lookup id status)

module _ {F : Type 0} (f : Float32 F) (laws : IsFloat32 f) (now : ℕ)
    (cost : ℕ → HeartbeatEntry F → F) (status : Dict (HeartbeatEntry F)) where
  open laws use {lt_irrefl, lt_trans}

  abbrev time_of : ℕ → Option (HeartbeatEntry F) → Option F
  time_of = entry_time now cost

  -- What rounds over some nodes do: they keep the choice, or move it to a live node among those
  -- (`among`) that is faster than it was.
  abbrev pub Moves : Choice F → (ℕ → Option F) → (ℕ → Bool) → Choice F → Type 0
  Moves best times among next =
      (next ≡ best)
      ⊎ ((times next.min_id ≡ some next.min_time)
          × (among next.min_id ≡ true)
          × (next.found_best ≡ true)
          × (f.lt next.min_time best.min_time ≡ true))

  consider-Moves :
      (best : Choice F) (id : ℕ) (o : Option (HeartbeatEntry F))
      → lookup id status ≡ o
      → Moves best (live_time now cost status) (λ j. j == id) (consider f now cost best id o)
  unfolding consider
  consider-Moves best id none l = inl refl
  consider-Moves best id (some e) l = ground (arith, l)

  consider_bound :
      (best : Choice F) (id : ℕ) (t : F) (o : Option (HeartbeatEntry F))
      → time_of id o ≡ some t
      → f.lt t (consider f now cost best id o).min_time ≡ false
  unfolding consider
  consider_bound best id t none h = cc
  consider_bound best id t (some e) h = ground (arith, lt_irrefl t)

  consider_mono :
      (best : Choice F) (id : ℕ) (t : F) (o : Option (HeartbeatEntry F))
      → f.lt t best.min_time ≡ false
      → f.lt t (consider f now cost best id o).min_time ≡ false
  unfolding consider
  consider_mono best id t none h = h
  consider_mono best id t (some e) h = ground (arith, lt_trans t (cost id e) best.min_time)

  scan_step :
      (best next last : Choice F) (id : ℕ) (ids : List ℕ)
      → Moves best (live_time now cost status) (λ j. j == id) next
      → Moves next (live_time now cost status) (λ j. elem j ids) last
      → Moves best (live_time now cost status) (λ j. elem j (id ∷ ids)) last
  unfolding elem
  scan_step best next last id ids (inl a) (inl b) = inl (b ∙ a)
  scan_step best next last id ids (inr a) (inl b) = inr (ground (arith, ==_iff id next.min_id))
  scan_step best next last id ids (inl a) (inr b) = inr (ground arith)
  scan_step best next last id ids (inr a) (inr b) =
      inr (ground (arith, lt_trans last.min_time next.min_time best.min_time))

  scan_mono :
      (ids : List ℕ) (best : Choice F) (t : F)
      → f.lt t best.min_time ≡ false
      → f.lt t (scan f now cost status ids best).min_time ≡ false
  unfolding scan
  scan_mono [] best t h = h
  scan_mono (id ∷ ids) best t h =
      scan_mono ids (consider f now cost best id (lookup id status)) t
        (consider_mono best id t (lookup id status) h)

  pub scan_bound :
      (ids : List ℕ) (best : Choice F) (id : ℕ) (t : F)
      → elem id ids ≡ true
      → live_time now cost status id ≡ some t
      → f.lt t (scan f now cost status ids best).min_time ≡ false
  unfolding scan elem
  scan_bound [] best id t m h = cc
  scan_bound (j ∷ ids) best id t m h = elim (Bool-cases (j == id)) [
    | inl same ↦
        let e : j ≡ id = (==_iff j id).0 same in
        scan_mono ids (consider f now cost best j (lookup j status)) t
          (consider_bound best j t (lookup j status) (rw e h))
    | inr other ↦ scan_bound ids _ id t (ground arith) h
  ]

  pub scan-Moves :
      (ids : List ℕ) (best : Choice F)
      → Moves best (live_time now cost status) (λ j. elem j ids) (scan f now cost status ids best)
  unfolding scan elem
  scan-Moves [] best = inl refl
  scan-Moves (id ∷ ids) best =
      let next = consider f now cost best id (lookup id status) in
      scan_step best next (scan f now cost status ids next) id ids
        (consider-Moves best id (lookup id status) refl) (scan-Moves ids next)
