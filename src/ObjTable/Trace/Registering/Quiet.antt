-- ===== src/ObjTable/Trace/Registering/Quiet.antt =====
-- When interleaved calls of go/cmd/gcsobjtable/main.go cannot replace a lineage.
use babyray.Common.{
  ℕ, ◌≡◌, sym, subst, ap, ◌∙◌, ◌==◌, ==_iff, inl, inr, true, false, some, All, All-middle,
  All-replace, Bool-cases, arith,
}
use babyray.Common.Dict.{lookup, lookup-insert, is_some}
use babyray.Common.Integers.{ℤ}
use babyray.Wire.{GlobalScheduleRequest}
use babyray.ObjTable.Database.{Sql}
use babyray.ObjTable.Server.{GcsObjServer}
use babyray.ObjTable.Recovery.{lineage_known, write_lineage}
use babyray.ObjTable.Trace.Invariant.{lineage-call}
use babyray.ObjTable.Trace.Registering.{
  RegisterPc, testing, writing, ended, Registering, after_test, RegisterStep, enter, test, write,
  other_call, RegisterSteps, idle, and_then,
}

-- A call that is not between its test and its write for an object.
abbrev pub IsQuiet : ℕ → RegisterPc → Type 0
IsQuiet u (testing req) = Unit
IsQuiet u (writing req) = (req.uid == u) ≡ false
IsQuiet u (ended req accepted) = Unit

-- An object has a lineage, and no call is about to replace it.
abbrev IsFixed : {D : Type 0} → ℕ → GlobalScheduleRequest → Registering D → Type 0
IsFixed u r s = (lookup u s.server.lineage ≡ some r) × All (IsQuiet u) s.calls

after_test-IsQuiet :
    {D : Type 0} (s : GcsObjServer D) (u : ℕ) (r req : GlobalScheduleRequest)
    → lookup u s.lineage ≡ some r
    → IsQuiet u (after_test s req)
unfolding after_test lineage_known
after_test-IsQuiet s u r req hit = elim (Bool-cases (is_some (lookup req.uid s.lineage))) [
  | inl known ↦ rw (known, IsQuiet) tt
  | inr fresh ↦
      rw (fresh, IsQuiet)
        (elim (Bool-cases (req.uid == u)) [
          | inl same ↦
              let found : is_some (lookup req.uid s.lineage) ≡ true =
                ap (λ v. is_some (lookup v s.lineage)) ((==_iff req.uid u).0 same)
                ∙ ap is_some hit in
              absurd (ground (arith, found, fresh))
          | inr different ↦ different
        ])
]

module _ {D Tx E : Type 0} (q : Sql D Tx E) (port : ℤ) where
  RegisterStep-IsFixed :
      {s t : Registering D} (u : ℕ) (r : GlobalScheduleRequest)
      → IsFixed u r s
      → RegisterStep q port s t
      → IsFixed u r t
  unfolding write_lineage
  RegisterStep-IsFixed {s} {t} u r h (enter req e) = subst (IsFixed u r) (sym e) (h.0, (tt, h.1))
  RegisterStep-IsFixed {s} {t} u r h (test before after req at e) = subst (IsFixed u r) (sym e) (
    h.0,
    All-replace (IsQuiet u) before (testing req) (after_test s.server req) after
        (subst (All (IsQuiet u)) at h.1) (after_test-IsQuiet s.server u r req h.0),
  )
  RegisterStep-IsFixed {s} {t} u r h (write before after req at e) =
      let quiet = subst (All (IsQuiet u)) at h.1 in
      subst (IsFixed u r) (sym e) (
        ground (
          arith,
          h.0,
          lookup-insert req.uid u req s.server.lineage,
          All-middle (IsQuiet u) before (writing req) after quiet,
        ),
        All-replace (IsQuiet u) before (writing req) (ended req true) after quiet tt,
      )
  RegisterStep-IsFixed {s} {t} u r h (other_call c one e) =
      subst (IsFixed u r) (sym e) (ap (lookup u) (lineage-call q port s.server c one) ∙ h.0, h.1)

  RegisterSteps-IsFixed :
      {s t : Registering D} (u : ℕ) (r : GlobalScheduleRequest)
      → IsFixed u r s
      → RegisterSteps q port s t
      → IsFixed u r t
  RegisterSteps-IsFixed u r h idle = h
  RegisterSteps-IsFixed u r h (and_then steps step) =
      RegisterStep-IsFixed u r (RegisterSteps-IsFixed u r h steps) step

  -- Once an object has a lineage and no call of RegisterLineage for the object stands between its
  -- test and its write, the object keeps the lineage, however the steps of any calls that follow
  -- interleave, registrations of the same object included.
  pub RegisterSteps_keep_lineage :
      {s t : Registering D} (u : ℕ) (r : GlobalScheduleRequest)
      → lookup u s.server.lineage ≡ some r
      → All (IsQuiet u) s.calls
      → RegisterSteps q port s t
      → lookup u t.server.lineage ≡ some r
  RegisterSteps_keep_lineage u r has quiet steps = (RegisterSteps-IsFixed u r (has, quiet) steps).0
