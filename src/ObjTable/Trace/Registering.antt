-- ===== src/ObjTable/Trace/Registering.antt =====
-- Any number of calls of RegisterLineage of go/cmd/gcsobjtable/main.go, which gives up its lock between
-- its test and its write: the two are steps of their own, in any order with those of the other calls,
-- those of the other handlers, and the flushes.
pub mod Kept
pub mod Quiet
mod Whole
mod Tests
use babyray.Common.{◌≡◌, Bool, true, false, List, [], ◌∷◌, ◌++◌, if◌then◌else◌}
use babyray.Wire.{GlobalScheduleRequest}
use babyray.Common.Integers.{ℤ}
use babyray.ObjTable.Database.{Sql}
use babyray.ObjTable.Server.{GcsObjServer}
use babyray.ObjTable.Recovery.{lineage_known, write_lineage}
use babyray.ObjTable.Trace.{Call, notify, request, lineage, live_nodes, generating, flush, call}

-- Where a call stands: before its test, before its write, or at its end, where it was accepted or
-- refused as a duplicate.
pub data RegisterPc : Type 0 where
  testing : GlobalScheduleRequest → RegisterPc
  writing : GlobalScheduleRequest → RegisterPc
  ended : GlobalScheduleRequest → (accepted : Bool) → RegisterPc

pub record Registering (D : Type 0) : Type 0 where
  pub server : GcsObjServer D
  pub calls : List RegisterPc

module _ {D : Type 0} where
  -- What the test, under the read lock, sends a call to.
  unfoldable pub after_test : GcsObjServer D → GlobalScheduleRequest → RegisterPc
  unfolding lineage_known
  after_test s req = if lineage_known s req then ended req false else writing req

-- Every call but RegisterLineage is one step here, also those that take no lock.
abbrev pub IsOneStep : Call → Type 0
IsOneStep (lineage _) = ⊥
IsOneStep (notify _) = Unit
IsOneStep (request _ _ _) = Unit
IsOneStep (live_nodes _) = Unit
IsOneStep (generating _) = Unit
IsOneStep flush = Unit

module _ {D Tx E : Type 0} (q : Sql D Tx E) (port : ℤ) where
  pub data RegisterStep (s t : Registering D) : Type 0 where
    enter :
        (req : GlobalScheduleRequest)
        → t ≡ record s { calls = testing req ∷ s.calls }
        → RegisterStep s t
    test :
        (before after : List RegisterPc) (req : GlobalScheduleRequest)
        → s.calls ≡ before ++ (testing req ∷ after)
        → t ≡ record s { calls = before ++ (after_test s.server req ∷ after) }
        → RegisterStep s t
    write :
        (before after : List RegisterPc) (req : GlobalScheduleRequest)
        → s.calls ≡ before ++ (writing req ∷ after)
        → t ≡ record {
          server = write_lineage s.server req;
          calls = before ++ (ended req true ∷ after);
        }
        → RegisterStep s t
    other_call :
        (c : Call)
        → IsOneStep c
        → t ≡ record s { server = (call q port s.server c).0 }
        → RegisterStep s t

  -- What comes of `s` after some steps.
  pub data RegisterSteps (s : Registering D) : Registering D → Type 0 where
    idle : RegisterSteps s s
    and_then : {t u : Registering D} → RegisterSteps s t → RegisterStep t u → RegisterSteps s u
