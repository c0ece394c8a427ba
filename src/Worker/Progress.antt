-- ===== src/Worker/Progress.antt =====
-- Calls of Run in go/cmd/worker/main.go never block one another for good.
use babyray.Common.{
  ◌<◌, ◌≤◌, ◌≡◌, refl, ap, ◌⊎◌, inl, inr, Bool, true, false, List, [], ◌∷◌, ◌++◌, arith, Bool-cases,
}
use babyray.Common.Float.{Float32}
use native.Mathlib.Decide.{dec_lt}
use babyray.Worker.{
  max_concurrent_tasks, Shared, Pc, called, queued, admitted, fetching, executing, executed,
  storing, stored, leaving, releasing, done, Move, System, Reach, enqueue, acquire, start, fetch,
  execute, exit, go_on, store, average, leave, release,
}
use babyray.Worker.Slots.{holds, rank, total, total-middle, Counts, Reach-Counts}

-- A call that can make a step, with its place among the calls.
pub record CanMove {F E : Type 0} (f : Float32 F) (s : System E f) : Type 0 where
  pub before : List (Pc E)
  pub after : List (Pc E)
  pub here : Pc E
  pub there : Pc E
  pub shared : Shared F
  pub at : s.calls ≡ before ++ (here ∷ after)
  pub moves : Move E f s.shared here shared there

module _ {F E : Type 0} (f : Float32 F) where
  -- A call with a slot, or one that has not begun to queue: it never waits.
  abbrev is_free : Pc E → Bool
  is_free (queued _) = false
  is_free (done _) = false
  is_free _ = true

  free_moves :
      (m : Shared F) (p : Pc E) (t : F)
      → is_free p ≡ true
      → holds p ≤ m.slots
      → (m' : Shared F) × (p' : Pc E) × Move E f m p m' p'
  free_moves m (called req) t h k = (_, _, enqueue)
  free_moves m (queued req) t h k = absurd (ground arith)
  free_moves m (admitted req) t h k = (_, _, start)
  free_moves m (fetching req) t h k = (_, _, fetch [])
  free_moves m (executing req func) t h k = (_, _, execute [])
  free_moves m (executed req output) t h k = elim (Bool-cases m.alive) [
    | inl alive ↦ (_, _, go_on alive)
    | inr dead ↦ (_, _, exit dead)
  ]
  free_moves m (storing req output) t h k = (_, _, store)
  free_moves m (stored req) t h k = (_, _, average t)
  free_moves m (leaving r) t h k = (_, _, leave)
  free_moves m (releasing r) t h k = (_, _, release k)
  free_moves m (done r) t h k = absurd (ground arith)

  -- A call of a list, with its place.
  record Split (P : Pc E → Type 0) (ps : List (Pc E)) : Type 0 where
    before : List (Pc E)
    after : List (Pc E)
    here : Pc E
    at : ps ≡ before ++ (here ∷ after)
    fits : P here

  later : {P : Pc E → Type 0} (p : Pc E) (ps : List (Pc E)) → Split P ps → Split P (p ∷ ps)
  later p ps s = record {
    before = p ∷ s.before;
    after = s.after;
    here = s.here;
    at = ap (λ qs. p ∷ qs) s.at;
    fits = s.fits;
  }

  find_free : (ps : List (Pc E)) → Split (λ p. is_free p ≡ true) ps ⊎ (total holds ps ≡ 0)
  unfolding total
  find_free [] = inr refl
  find_free (p ∷ ps) = elim (Bool-cases (is_free p)) [
    | inl free ↦ inl (record { before = []; after = ps; here = p; at = refl; fits = free })
    | inr stuck ↦ elim (find_free ps) [
      | inl s ↦ inl (later p ps s)
      | inr none' ↦ inr (omega (arith, stuck_holds p stuck))
    ]
  ]
    where
      stuck_holds : (p : Pc E) → is_free p ≡ false → holds p ≡ 0
      stuck_holds p h = ground arith

  find_left : (ps : List (Pc E)) → 0 < total rank ps → Split (λ p. 0 < rank p) ps
  unfolding total
  find_left [] h = absurd (omega arith)
  find_left (p ∷ ps) h = elim (dec_lt 0 (rank p)) [
    | yes here ↦ record { before = []; after = ps; here = p; at = refl; fits = here }
    | no gone ↦ later p ps (find_left ps (omega arith))
  ]

  waiting_moves :
      (m : Shared F) (p : Pc E)
      → is_free p ≡ false
      → 0 < rank p
      → m.slots < max_concurrent_tasks
      → (m' : Shared F) × (p' : Pc E) × Move E f m p m' p'
  waiting_moves m (queued req) h k l = (_, _, acquire l)
  waiting_moves m (done r) h k l = absurd (omega arith)
  waiting_moves m p h k l = absurd (ground arith)

  splits :
      (s : System E f) {P : Pc E → Type 0} (x : Split P s.calls)
      → (m : Shared F) × (p : Pc E) × Move E f s.shared x.here m p
      → CanMove f s
  splits s x (m', p', mv) = record {
    before = x.before;
    after = x.after;
    here = x.here;
    there = p';
    shared = m';
    at = x.at;
    moves = mv;
  }

  module _ {s : System E f} (t : F) (counts : Counts E f s.shared s.calls) where
    holds-le : {P : Pc E → Type 0} (x : Split P s.calls) → holds x.here ≤ s.shared.slots
    holds-le x =
        omega (arith, counts, ap (total holds) x.at, total-middle holds x.before x.here x.after)

    -- With no slot taken, a call that has not returned moves, also one that queues.
    left_moves : (x : Split (λ p. 0 < rank p) s.calls) → total holds s.calls ≡ 0 → CanMove f s
    left_moves x none' = splits s x (elim (Bool-cases (is_free x.here)) [
      | inl free ↦ free_moves s.shared x.here t free (holds-le x)
      | inr stuck ↦ waiting_moves s.shared x.here stuck x.fits (omega (arith, counts))
    ])

  -- In every state that the worker reaches, while some call of Run has not returned, some call can
  -- take its next step, if the function table, the process and the object store answer it.
  pub can_move : {s : System E f} (t : F) → Reach E f s → 0 < total rank s.calls → CanMove f s
  can_move {s} t r left =
      let counts = Reach-Counts E f r in
      elim (find_free s.calls) [
        | inl x ↦ splits s x (free_moves s.shared x.here t x.fits (holds-le t counts x))
        | inr none' ↦ left_moves t counts (find_left s.calls left) none'
      ]
