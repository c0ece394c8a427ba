-- ===== src/Worker/Drained.antt =====
-- The calls of Run in go/cmd/worker/main.go that have begun come to their ends.
use babyray.Common.{
  ℕ, zero, suc, ◌+◌, ◌≤◌, ◌≡◌, refl, ap, sym, ◌∙◌, List, [], ◌∷◌, ◌++◌, All, length, arith,
}
use native.Mathlib.Decide.{dec_lt}
use babyray.Common.Float.{Float32}
use babyray.Worker.{Shared, Pc, done, Move, System, Reach, enqueue, move, next}
use babyray.Worker.Slots.{holds, runs, waits, rank, total, total-middle, Counts, Reach-Counts}
use babyray.Worker.Progress.{CanMove, can_move}

abbrev pub IsDone : {E : Type 0} → Pc E → Type 0
IsDone (done _) = Unit
IsDone _ = ⊥

module _ {F E : Type 0} (f : Float32 F) where
  -- Moves of the calls alone: none begins, and the worker is neither killed nor revived.
  pub data Moves : System E f → System E f → Type 0 where
    here : {s : System E f} → Moves s s
    and_then :
        {s u : System E f} (before after : List (Pc E)) {p p' : Pc E} {m : Shared F}
        → s.calls ≡ before ++ (p ∷ after)
        → Move E f s.shared p m p'
        → Moves (record { shared = m; calls = before ++ (p' ∷ after) }) u
        → Moves s u

  -- Every call has returned, the semaphore is empty, and no task is counted as running or queued.
  pub record IsIdle (s : System E f) : Type 0 where
    pub calls : All IsDone s.calls
    pub slots : s.shared.slots ≡ 0
    pub running : s.shared.num_running_tasks ≡ 0
    pub queued : s.shared.num_queued_tasks ≡ 0

  rank-Move : {m m' : Shared F} {p p' : Pc E} → Move E f m p m' p' → rank p' + 1 ≤ rank p
  rank-Move enqueue = omega arith
  rank-Move _ = omega arith

  -- With no move left, a call is done, and counts for nothing.
  done_of : (p : Pc E) → rank p ≡ 0 → IsDone p × (holds p + runs p + waits p ≡ 0)
  done_of (done r) h = (tt, refl)
  done_of p h = absurd (ground (arith, h))

  idle_of :
      (ps : List (Pc E))
      → total rank ps ≡ 0
      → All IsDone ps × (total holds ps + total runs ps + total waits ps ≡ 0)
  unfolding total
  idle_of [] h = (tt, refl)
  idle_of (p ∷ ps) h =
      let (first, none') = done_of p (omega (arith, h)) in
      let (rest, none'') = idle_of ps (omega (arith, h)) in
      ((first, rest), omega (arith, none', none''))

  IsIdle-of : (s : System E f) → Counts E f s.shared s.calls → total rank s.calls ≡ 0 → IsIdle s
  IsIdle-of s counts h =
      let (all, none') = idle_of s.calls h in
      record {
        calls = all;
        slots = omega (arith, counts, none');
        running = omega (arith, counts, none');
        queued = omega (arith, counts, none');
      }

  -- A run of moves to an idle worker with as many calls.
  abbrev pub CanDrain : System E f → Type 0
  CanDrain s = (t : System E f) × Moves s t × (length t.calls ≡ length s.calls) × IsIdle t

  length-middle :
      (ps qs : List (Pc E)) (p p' : Pc E) → length (ps ++ (p' ∷ qs)) ≡ length (ps ++ (p ∷ qs))
  length-middle [] qs p p' = refl
  length-middle (x ∷ ps) qs p p' = ap suc (length-middle ps qs p p')

  one_more :
      {s : System E f} (c : CanMove f s)
      → CanDrain (record { shared = c.shared; calls = c.before ++ (c.there ∷ c.after) })
      → CanDrain s
  one_more c (t, moves, same, idle) = (
    t,
    and_then c.before c.after c.at c.moves moves,
    same ∙ length-middle c.before c.after c.here c.there ∙ ap length (sym c.at),
    idle,
  )

  rank-CanMove :
      {s : System E f} (c : CanMove f s)
      → total rank (c.before ++ (c.there ∷ c.after)) + 1 ≤ total rank s.calls
  rank-CanMove c = omega (
    arith,
    rank-Move c.moves,
    ap (total rank) c.at,
    total-middle rank c.before c.here c.after,
    total-middle rank c.before c.there c.after,
  )

  drain :
      (bound : ℕ) (t : F) {s : System E f} → Reach E f s → total rank s.calls ≤ bound → CanDrain s
  drain zero t {s} r le = (s, here, refl, IsIdle-of s (Reach-Counts E f r) (omega (arith, le)))
  drain (suc bound) t {s} r le = elim (dec_lt 0 (total rank s.calls)) [
    | no none' ↦ (s, here, refl, IsIdle-of s (Reach-Counts E f r) (omega (arith, none')))
    | yes left ↦
        let c = can_move f t r left in
        one_more c (
          drain bound t (next r (move c.before c.after c.at c.moves refl))
            (omega (arith, le, rank-CanMove c)))
  ]

  -- From every state that the worker reaches, with whatever calls at whatever steps, the calls that
  -- have begun can all return, by moves of theirs alone, if the function table, the process and the
  -- object store answer them; the worker is then idle as at its start, with the semaphore empty and
  -- both counters at 0.
  pub Reach-CanDrain : {s : System E f} (t : F) → Reach E f s → CanDrain s
  Reach-CanDrain {s} t r = drain (total rank s.calls) t r (omega arith)
