-- ===== src/Tasks/Published.antt =====
-- From the registration of a function to the result of a task that calls it: go/cmd/gcsfunctable/main.go,
-- go/cmd/worker/main.go, go/cmd/localobjstore/main.go and go/cmd/gcsobjtable/main.go together.
use babyray.Common.{
  ℕ, ◌≡◌, refl, ap, sym, subst, Bool, true, false, Option, none, some, List, [], All, Outcome, ok,
  err,
}
use babyray.Common.Dict.{lookup}
use babyray.Wire.{Bytes, RunRequest, StatusResponse, NotifyOwnsRequest}
use babyray.ObjTable.Server.{GcsObjServer}
use babyray.FuncTable.{new_gcs_func_server}
use babyray.FuncTable.Fetch.{register_all, last_registered, fetch_func-last_registered}
use babyray.LocalObjStore.{ObjStore, StoreError, store}
use babyray.LocalObjStore.SharedMemory.{System, IsSystem}
use babyray.Publishing.{IsPublished, store-IsPublished}
use babyray.Worker.{returned, exited}
use babyray.Worker.Execute.{PythonCall, script}
use babyray.Worker.Execute.Base64.{IsByte}
use babyray.Worker.Execute.RoundTrip.{IsResult, outcome_of, execute_function-script}
use babyray.Tasks.{
  storing, TaskEnd, store_output, after_store, after_execute, after_fetch, run_task,
}

module _ {M R E F D : Type 0} (sys : System M R E) (h : IsSystem sys) (s : ObjStore M F)
    (t : GcsObjServer D) (req : RunRequest) (requester : ℕ) where
  -- How a task ends whose function returns `bytes`, at a worker that is alive or not.
  abbrev pub Returns : Bool → Bytes → TaskEnd M F E → Type 0
  Returns true bytes (s', sent, some (returned (ok reply))) =
      IsPublished sys h s (record { uid = req.uid; object_bytes = bytes }) t (s', sent) requester
  Returns true bytes (s', sent, some (returned (err e))) = (e' : StoreError E) × (e ≡ storing e')
  Returns true bytes (s', sent, some exited) = ⊥
  Returns true bytes (s', sent, none) = ⊥
  Returns false bytes r = r ≡ (s, [], some exited)

  -- How a task ends, by what comes back of the call of its function.
  abbrev pub Ends : Bool → Option Bytes → TaskEnd M F E → Type 0
  Ends alive (some bytes) r = Returns alive bytes r
  Ends alive none r = r ≡ (s, [], none)

  after_store-Returns :
      (bytes : Bytes)
      (r : ObjStore M F × List NotifyOwnsRequest × Outcome (StoreError E) StatusResponse)
      → store sys s (store_output req bytes) ≡ r
      → lookup req.uid t.object_locations ≡ none
      → Returns true bytes (after_store r)
  unfolding after_store
  after_store-Returns bytes (s', sent, err e) eq first = (e, refl)
  after_store-Returns bytes (s', sent, ok reply) eq first =
      subst (λ r. IsPublished sys h s (store_output req bytes) t (r.0, r.1) requester) eq
        (store-IsPublished sys h s (store_output req bytes) t reply requester (ap (λ r. r.2) eq)
          first)

  after_execute-Returns :
      (process : List ℕ → Option (List ℕ)) (alive : Bool) (bytes : Bytes)
      → lookup req.uid t.object_locations ≡ none
      → Returns alive bytes (after_execute sys process alive s req (some bytes))
  unfolding after_execute
  after_execute-Returns process true bytes first =
      after_store-Returns bytes (store sys s (store_output req bytes)) refl first
  after_execute-Returns process false bytes first = refl

  after_execute-Ends :
      (process : List ℕ → Option (List ℕ)) (alive : Bool) (o : Option Bytes)
      → lookup req.uid t.object_locations ≡ none
      → Ends alive o (after_execute sys process alive s req o)
  unfolding after_execute
  after_execute-Ends process alive (some bytes) first =
      after_execute-Returns process alive bytes first
  after_execute-Ends process alive none first = refl

  -- A task of a registered function, at a worker over the script, for an object that the table has no
  -- list for. What comes back of the function's call is its result, if stdout got nothing else but line
  -- ends; nothing, if the call raised an exception or ended the script without success, or if stdout got
  -- a character of the function's that is not Base64's; no bytes, if the call ended the script with
  -- success and stdout got nothing but line ends; and else all of stdout decoded, or nothing. If nothing
  -- comes back the worker ends, with nothing stored or announced. Else, if the worker is not alive, the
  -- call of Run ends without a reply, again with nothing stored. If it is alive, either Run replies with
  -- success, and once the announcement has arrived GetObjectLocations reports the worker's node with the
  -- size of what came back, each client that waited for the object is called back with that node, and
  -- Copy there gives what came back or an error of the system; or Run fails because Store failed.
  pub run_task-Ends :
      (call : Bytes → Bytes → Bytes → PythonCall) (broken f : Bytes) (alive : Bool)
      (calls : List (Option ℕ × Bytes))
      → last_registered req.name calls none ≡ some f
      → All IsByte f
      → All IsByte req.args
      → All IsByte req.kwargs
      → IsResult (call f req.args req.kwargs).ending
      → lookup req.uid t.object_locations ≡ none
      → Ends alive
          (outcome_of (call f req.args req.kwargs))
          (run_task sys (script call broken) alive s req (register_all calls new_gcs_func_server))
  unfolding run_task after_fetch
  run_task-Ends call broken f alive calls registered hf ha hk hr first =
      let process = script call broken in
      let o = outcome_of (call f req.args req.kwargs) in
      subst (λ p. Ends alive o (after_fetch sys process alive s req p))
        (sym (
          fetch_func-last_registered calls (record { name = req.name; callback_node_id = 0 }) f
            registered))
        (subst (λ p. Ends alive o (after_execute sys process alive s req p))
          (sym (execute_function-script call broken f req.args req.kwargs hf ha hk hr))
          (after_execute-Ends process alive o first))
