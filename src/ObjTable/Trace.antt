-- ===== src/ObjTable/Trace.antt =====
-- The object table (go/cmd/gcsobjtable/main.go) over time: its handlers and the flush timer, in any
-- order. A run is a sequence of whole calls, also of RegisterLineage, which gives up its lock between
-- its test and its write.
pub mod Invariant
pub mod Forgotten
pub mod Jammed
pub mod Waiters
pub mod Registering
mod Tests
use babyray.Common.{ℕ, ◌+◌, Option, none, some, List, [], ◌∷◌, ◌++◌, String, Bool}
use babyray.Common.Text.{Text}
use babyray.Common.Integers.{ℤ}
use babyray.Wire.{
  GlobalScheduleRequest, NotifyOwnsRequest, RequestLocationRequest, LiveNodesRequest,
  GeneratingRequest,
}
use babyray.ObjTable.Database.{Sql}
use babyray.ObjTable.Server.{GcsObjServer, Address, Callback}
use babyray.ObjTable.Locations.{notify_owns, request_location}
use babyray.ObjTable.Locations.Waiters.{asked}
use babyray.ObjTable.Recovery.{
  register_lineage, register_live_nodes, register_generating, flush_to_disk,
}

-- A call, with what the environment adds: the peer's address and the index that `rand.Intn` draws.
pub data Call : Type 0 where
  notify : NotifyOwnsRequest → Call
  request : (ℕ → ℕ) → Option Text → RequestLocationRequest → Call
  lineage : GlobalScheduleRequest → Call
  live_nodes : LiveNodesRequest → Call
  generating : GeneratingRequest → Call
  flush : Call

module _ {D Tx E : Type 0} (q : Sql D Tx E) (port : ℤ) where
  unfoldable pub call : GcsObjServer D → Call → GcsObjServer D × List Callback
  call s (notify req) = notify_owns s req
  call s (request intn peer req) =
      let (s', sent, reply) = request_location q intn port s peer req in (s', sent)
  call s (lineage req) = ((register_lineage {E = E} s req).0, [])
  call s (live_nodes req) = ((register_live_nodes s req).0, [])
  call s (generating req) = (register_generating s req, [])
  call s flush = ((flush_to_disk q s).0, [])

  -- The state after a sequence of calls, and all the callbacks that they started.
  unfoldable pub run : GcsObjServer D → List Call → GcsObjServer D × List Callback
  run s [] = (s, [])
  run s (c ∷ cs) = let (s', sent) = call s c in let (last, rest) = run s' cs in (last, sent ++ rest)

  call_asks : (Address → Bool) → ℕ → GcsObjServer D → Call → ℕ
  call_asks p u s (request intn peer req) =
      let (s', sent, reply) = request_location q intn port s peer req in
      asked p u port peer req reply
  call_asks p u s _ = 0

  -- How often a client at such an address asked for the object and had an answer without an error.
  unfoldable pub run_asks : (Address → Bool) → ℕ → GcsObjServer D → List Call → ℕ
  unfolding call call_asks
  run_asks p u s [] = 0
  run_asks p u s (c ∷ cs) = call_asks p u s c + run_asks p u (call s c).0 cs
