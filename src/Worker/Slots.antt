-- ===== src/Worker/Slots.antt =====
-- The semaphore and the counters of go/cmd/worker/main.go agree with where the calls of Run stand.
use babyray.Common.{ℕ, ◌+◌, ◌%◌, ◌^◌, ◌≤◌, ◌≡◌, sym, subst, List, [], ◌∷◌, ◌++◌, arith}
use babyray.Common.Float.{Float32}
use babyray.Worker.{
  max_concurrent_tasks, Shared, Pc, called, queued, admitted, fetching, executing, executed,
  storing, stored, leaving, releasing, done, Move, System, Step, Reach, begin, worker_status,
  enqueue, acquire, call, move, set_alive, next,
}

module _ {E : Type 0} where
  -- Whether a call has put its task into the channel and not taken it out.
  abbrev pub holds : Pc E → ℕ
  holds (called _) = 0
  holds (queued _) = 0
  holds (done _) = 0
  holds _ = 1

  -- Whether a call is counted as running.
  abbrev pub runs : Pc E → ℕ
  runs (called _) = 0
  runs (queued _) = 0
  runs (admitted _) = 0
  runs (releasing _) = 0
  runs (done _) = 0
  runs _ = 1

  -- Whether a call is counted as queued.
  abbrev pub waits : Pc E → ℕ
  waits (queued _) = 1
  waits (admitted _) = 1
  waits _ = 0

  -- How many moves a call may still make.
  abbrev pub rank : Pc E → ℕ
  rank (called _) = 10
  rank (queued _) = 9
  rank (admitted _) = 8
  rank (fetching _) = 7
  rank (executing _ _) = 6
  rank (executed _ _) = 5
  rank (storing _ _) = 4
  rank (stored _) = 3
  rank (leaving _) = 2
  rank (releasing _) = 1
  rank (done _) = 0

  unfoldable pub total : (Pc E → ℕ) → List (Pc E) → ℕ
  total w [] = 0
  total w (p ∷ ps) = w p + total w ps

  total-append : (w : Pc E → ℕ) (ps qs : List (Pc E)) → total w (ps ++ qs) ≡ total w ps + total w qs
  unfolding total
  total-append w [] qs = omega arith
  total-append w (p ∷ ps) qs = omega (arith, total-append w ps qs)

  pub total-middle :
      (w : Pc E → ℕ) (ps : List (Pc E)) (p : Pc E) (qs : List (Pc E))
      → total w (ps ++ (p ∷ qs)) ≡ w p + total w (ps ++ qs)
  unfolding total
  total-middle w ps p qs = omega (arith, total-append w ps (p ∷ qs), total-append w ps qs)

  runs-le-holds : (ps : List (Pc E)) → total runs ps ≤ total holds ps
  unfolding total
  runs-le-holds [] = omega arith
  runs-le-holds (p ∷ ps) = omega (arith, runs-le-holds_one p, runs-le-holds ps)
    where
      runs-le-holds_one : (p : Pc E) → runs p ≤ holds p
      runs-le-holds_one p = ground arith

module _ {F : Type 0} (E : Type 0) (f : Float32 F) where
  -- The channel holds the tasks of the calls that have a slot, the counters count the calls that run
  -- and that queue, and no more calls have a slot than there are.
  pub record Counts (m : Shared F) (calls : List (Pc E)) : Type 0 where
    pub slots : m.slots ≡ total holds calls
    pub few : total holds calls ≤ max_concurrent_tasks
    pub running : m.num_running_tasks ≡ total runs calls
    pub queued : m.num_queued_tasks ≡ total waits calls % 2 ^ 32

  -- The same where one call stands at `p` and the others have these totals.
  record CountsAt (h r w : ℕ) (m : Shared F) (p : Pc E) : Type 0 where
    slots : m.slots ≡ holds p + h
    few : holds p + h ≤ max_concurrent_tasks
    running : m.num_running_tasks ≡ runs p + r
    queued : m.num_queued_tasks ≡ (waits p + w) % 2 ^ 32
    fewer : r ≤ h

  Move-CountsAt :
      {h r w : ℕ} {m m' : Shared F} {p p' : Pc E}
      → Move E f m p m' p'
      → CountsAt h r w m p
      → CountsAt h r w m' p'
  Move-CountsAt enqueue c = omega arith
  Move-CountsAt (acquire lt) c = omega arith
  Move-CountsAt _ c = omega arith

  module _ (before after : List (Pc E)) where
    others : (Pc E → ℕ) → ℕ
    others w = total w (before ++ after)

    CountsAt-of :
        {m : Shared F} (p : Pc E)
        → Counts m (before ++ (p ∷ after))
        → CountsAt (others holds) (others runs) (others waits) m p
    unfolding others
    CountsAt-of p c = omega (
      arith,
      total-middle holds before p after,
      total-middle runs before p after,
      total-middle waits before p after,
      runs-le-holds (before ++ after),
    )

    of_CountsAt :
        {m : Shared F} (p : Pc E)
        → CountsAt (others holds) (others runs) (others waits) m p
        → Counts m (before ++ (p ∷ after))
    unfolding others
    of_CountsAt p c = omega (
      arith,
      total-middle holds before p after,
      total-middle runs before p after,
      total-middle waits before p after,
    )

  abbrev CountsOf : System E f → Type 0
  CountsOf s = Counts s.shared s.calls

  Step-Counts : {s t : System E f} → Step E f s t → CountsOf s → CountsOf t
  unfolding total
  Step-Counts (call req e) c = subst CountsOf (sym e) (omega arith)
  Step-Counts {s} (move before after {p} {p'} e mv e') c = subst CountsOf (sym e') (
      of_CountsAt before after p'
        (Move-CountsAt mv (CountsAt-of before after p (subst (Counts s.shared) e c))))
  Step-Counts (set_alive alive e) c = subst CountsOf (sym e) (omega arith)

  -- In every state that the worker reaches, whatever calls began and in whatever order they, the
  -- kills and the revivals went, the semaphore and both counters count the calls exactly (the queued
  -- ones modulo 2 ^ 32).
  pub Reach-Counts : {s : System E f} → Reach E f s → Counts s.shared s.calls
  unfolding total
  Reach-Counts begin = omega arith
  Reach-Counts (next r st) = Step-Counts st (Reach-Counts r)

  -- WorkerStatus never reports more than MAX_CONCURRENT_TASKS running tasks; it reports exactly the
  -- calls between the two updates of the counter, and the queued ones modulo 2 ^ 32.
  pub worker_status-counts :
      {s : System E f}
      → Reach E f s
      → ((worker_status s.shared).num_running_tasks ≤ max_concurrent_tasks)
        × ((worker_status s.shared).num_running_tasks ≡ total runs s.calls)
        × ((worker_status s.shared).num_queued_tasks ≡ total waits s.calls % 2 ^ 32)
  unfolding worker_status
  worker_status-counts {s} r = let c = Reach-Counts r in omega (arith, runs-le-holds s.calls)
