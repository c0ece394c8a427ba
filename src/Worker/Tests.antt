-- ===== src/Worker/Tests.antt =====
-- A run of the worker (go/cmd/worker/main.go): one call ends, one queues.
use babyray.Common.{
  true, ℕ, ◌+◌, ◌*◌, ◌/◌, ◌%◌, ◌^◌, ◌≤◌, ◌<◌, ◌≡◌, refl, [], ◌∷◌, ◌++◌, ltb, arith, none, some,
}
use babyray.Common.Float.{Float32}
use babyray.Wire.{RunRequest, Bytes}
use babyray.Worker.{
  max_concurrent_tasks, System, Reach, begin, next, call, move, enqueue, worker_status, initial,
  called, queued,
}
use babyray.Worker.Execute.{PythonCall, gives, raises, exits, script, execute_function}
use babyray.Worker.Execute.Foreign.{is_foreign}
use babyray.Worker.Execute.RoundTrip.{execute_function-script}
use babyray.Worker.Slots.{Counts, runs, waits, rank, total, Reach-Counts, worker_status-counts}
use babyray.Worker.Drained.{CanDrain, Reach-CanDrain}
use babyray.Worker.Progress.{CanMove, can_move}

abbrev whole : Float32 ℕ
whole = record {
  of_uint = λ n. n;
  add = λ a b. a + b;
  mul = λ a b. a * b;
  div = λ a b. a / b;
  lt = ltb;
  max_float = 2 ^ 128;
}

abbrev task : RunRequest
task = record { uid = 1; name = 2; args = []; kwargs = [] }

abbrev one_queued : System ℕ whole
one_queued = record {
  shared = record ((initial ℕ whole).shared) { num_queued_tasks = 1 };
  calls = queued task ∷ [];
}

abbrev one_called : System ℕ whole
one_called = record { shared = (initial ℕ whole).shared; calls = called task ∷ [] }

Reach-queued : Reach ℕ whole one_queued
Reach-queued = next {s = one_called} (next begin (call task refl)) (move [] [] refl enqueue refl)

Reach-Counts_example : Counts ℕ whole one_queued.shared one_queued.calls
Reach-Counts_example = Reach-Counts ℕ whole Reach-queued

worker_status-counts_example :
    ((worker_status one_queued.shared).num_running_tasks ≤ max_concurrent_tasks)
    × ((worker_status one_queued.shared).num_running_tasks ≡ total runs one_queued.calls)
    × ((worker_status one_queued.shared).num_queued_tasks ≡ total waits one_queued.calls % 2 ^ 32)
worker_status-counts_example = worker_status-counts ℕ whole Reach-queued

one_left : 0 < total rank one_queued.calls
unfolding total
one_left = omega arith

can_move_example : CanMove whole one_queued
can_move_example = can_move whole 3 Reach-queued one_left

Reach-CanDrain_example : CanDrain whole one_queued
Reach-CanDrain_example = Reach-CanDrain whole 3 Reach-queued

-- A function that gives its arguments back and prints a line end, one that prints "hi!" besides, one that
-- raises an exception, and one that calls sys.exit(0).
abbrev give_back : Bytes → Bytes → Bytes → PythonCall
give_back f args kwargs = record { before = 10 ∷ []; ending = gives (f ++ args); after = [] }

abbrev talk : Bytes → Bytes → Bytes → PythonCall
talk f args kwargs = record {
  before = 104 ∷ 105 ∷ 33 ∷ 10 ∷ [];
  ending = gives (f ++ args);
  after = [];
}

abbrev raise : Bytes → Bytes → Bytes → PythonCall
raise f args kwargs = record { before = []; ending = raises (98 ∷ 97 ∷ 100 ∷ []); after = [] }

abbrev leave_at_once : Bytes → Bytes → Bytes → PythonCall
leave_at_once f args kwargs = record { before = []; ending = exits true; after = [] }

execute_function-script_example :
    execute_function (script give_back []) (1 ∷ 255 ∷ []) (7 ∷ []) [] ≡ some (1 ∷ 255 ∷ 7 ∷ [])
unfolding is_foreign
execute_function-script_example =
    execute_function-script give_back [] (1 ∷ 255 ∷ []) (7 ∷ []) [] (omega arith, (omega arith, tt))
      (omega arith, tt) tt (omega arith, (omega arith, (omega arith, tt)))

talked : execute_function (script talk []) (1 ∷ []) (2 ∷ 3 ∷ []) [] ≡ none
unfolding is_foreign
talked =
    execute_function-script talk [] (1 ∷ []) (2 ∷ 3 ∷ []) [] (omega arith, tt)
      (omega arith, (omega arith, tt)) tt (omega arith, (omega arith, (omega arith, tt)))

raised : execute_function (script raise []) (1 ∷ []) [] [] ≡ none
raised = execute_function-script raise [] (1 ∷ []) [] [] (omega arith, tt) tt tt tt

left : execute_function (script leave_at_once []) (1 ∷ []) [] [] ≡ some []
unfolding is_foreign
left = execute_function-script leave_at_once [] (1 ∷ []) [] [] (omega arith, tt) tt tt tt
