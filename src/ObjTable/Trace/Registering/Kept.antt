-- ===== src/ObjTable/Trace/Registering/Kept.antt =====
-- What interleaved calls of go/cmd/gcsobjtable/main.go leave of the lineages in the table.
use babyray.Common.{
  ℕ, ◌≡◌, refl, sym, ap, subst, ◌∙◌, ◌⊎◌, inl, inr, Bool, true, false, Option, some, some-injective,
  List, [], ◌∷◌, ◌++◌, ◌==◌, ==_iff, if◌then◌else◌, arith, All, All-weaken, All-replace, Bool-cases,
}
use babyray.Common.Dict.{Dict, insert, lookup, lookup-insert, lookup-insert_self, is_some}
use babyray.Common.Integers.{ℤ}
use babyray.ObjTable.Database.{Sql}
use babyray.ObjTable.Trace.Invariant.{lineage-call}
use babyray.Wire.{GlobalScheduleRequest}
use babyray.ObjTable.Server.{GcsObjServer, new_gcs_obj_server}
use babyray.ObjTable.Recovery.{lineage_known, write_lineage}
use babyray.ObjTable.Trace.Registering.{
  RegisterPc, testing, writing, ended, Registering, after_test, RegisterStep, enter, test, write,
  other_call, RegisterSteps, idle, and_then,
}

-- A call with this request was accepted.
abbrev pub IsAccepted : GlobalScheduleRequest → List RegisterPc → Type 0
IsAccepted r [] = ⊥
IsAccepted r (testing req ∷ ps) = IsAccepted r ps
IsAccepted r (writing req ∷ ps) = IsAccepted r ps
IsAccepted r (ended req true ∷ ps) = (req ≡ r) ⊎ IsAccepted r ps
IsAccepted r (ended req false ∷ ps) = IsAccepted r ps

abbrev IsOpen : RegisterPc → Type 0
IsOpen (testing req) = Unit
IsOpen (writing req) = Unit
IsOpen (ended req accepted) = ⊥

IsAccepted-cons :
    (r : GlobalScheduleRequest) (p : RegisterPc) (ps : List RegisterPc)
    → IsAccepted r ps
    → IsAccepted r (p ∷ ps)
IsAccepted-cons r (testing req) ps h = h
IsAccepted-cons r (writing req) ps h = h
IsAccepted-cons r (ended req true) ps h = inr h
IsAccepted-cons r (ended req false) ps h = h

-- A call that has not ended goes on.
IsAccepted-replace :
    (r : GlobalScheduleRequest) (before : List RegisterPc) (p p' : RegisterPc)
    (after : List RegisterPc)
    → IsOpen p
    → IsAccepted r (before ++ (p ∷ after))
    → IsAccepted r (before ++ (p' ∷ after))
IsAccepted-replace r [] (testing req) p' after is_open h = IsAccepted-cons r p' after h
IsAccepted-replace r [] (writing req) p' after is_open h = IsAccepted-cons r p' after h
IsAccepted-replace r [] (ended req accepted) p' after is_open h = absurd is_open
IsAccepted-replace r (testing req ∷ before) p p' after is_open h =
    IsAccepted-replace r before p p' after is_open h
IsAccepted-replace r (writing req ∷ before) p p' after is_open h =
    IsAccepted-replace r before p p' after is_open h
IsAccepted-replace r (ended req false ∷ before) p p' after is_open h =
    IsAccepted-replace r before p p' after is_open h
IsAccepted-replace r (ended req true ∷ before) p p' after is_open (inl same) = inl same
IsAccepted-replace r (ended req true ∷ before) p p' after is_open (inr h) =
    inr (IsAccepted-replace r before p p' after is_open h)

IsAccepted-here :
    (r : GlobalScheduleRequest) (before after : List RegisterPc)
    → IsAccepted r (before ++ (ended r true ∷ after))
IsAccepted-here r [] after = inl refl
IsAccepted-here r (p ∷ before) after = IsAccepted-cons r p _ (IsAccepted-here r before after)

abbrev pub Lineages : Type 0
Lineages = Dict GlobalScheduleRequest

-- A call that has ended leaves its object with a lineage.
abbrev pub IsSettled : Lineages → RegisterPc → Type 0
IsSettled m (testing req) = Unit
IsSettled m (writing req) = Unit
IsSettled m (ended req accepted) = is_some (lookup req.uid m) ≡ true

pub record IsKept (m : Lineages) (calls : List RegisterPc) : Type 0 where
  pub accepted :
      (uid : ℕ) (r : GlobalScheduleRequest)
      → lookup uid m ≡ some r
      → (r.uid ≡ uid) × IsAccepted r calls
  pub settled : All (IsSettled m) calls

insert-IsSettled :
    (m : Lineages) (req : GlobalScheduleRequest) (p : RegisterPc)
    → IsSettled m p
    → IsSettled (insert req.uid req m) p
insert-IsSettled m req (testing r) h = tt
insert-IsSettled m req (writing r) h = tt
insert-IsSettled m req (ended r accepted) h = ground (arith, h, lookup-insert req.uid r.uid req m)

insert-accepted :
    (m : Lineages) (req : GlobalScheduleRequest) (uid : ℕ) (r : GlobalScheduleRequest)
    → lookup uid (insert req.uid req m) ≡ some r
    → ((req.uid ≡ uid) × (req ≡ r)) ⊎ (lookup uid m ≡ some r)
insert-accepted m req uid r hit =
    which req uid r (req.uid == uid) (lookup uid m) refl
      (sym (lookup-insert req.uid uid req m) ∙ hit)
  where
    which :
        (req : GlobalScheduleRequest) (uid : ℕ) (r : GlobalScheduleRequest) (b : Bool)
        (old : Option GlobalScheduleRequest)
        → (req.uid == uid) ≡ b
        → (if b then some req else old) ≡ some r
        → ((req.uid ≡ uid) × (req ≡ r)) ⊎ (old ≡ some r)
    which req uid r true old same e = inl ((==_iff req.uid uid).0 same, some-injective _ _ e)
    which req uid r false old other e = inr e

-- A call that was at its test or at its write goes on, and the lineages are the same.
moved-IsKept :
    (m : Lineages) (before after : List RegisterPc) (p p' : RegisterPc)
    → IsOpen p
    → IsSettled m p'
    → IsKept m (before ++ (p ∷ after))
    → IsKept m (before ++ (p' ∷ after))
moved-IsKept m before after p p' is_open settled h = record {
  accepted = λ uid r hit. (
    (h.accepted uid r hit).0,
    IsAccepted-replace r before p p' after is_open (h.accepted uid r hit).1,
  );
  settled = All-replace (IsSettled m) before p p' after h.settled settled;
}

written-IsKept :
    (m : Lineages) (before after : List RegisterPc) (req : GlobalScheduleRequest)
    → IsKept m (before ++ (writing req ∷ after))
    → IsKept (insert req.uid req m) (before ++ (ended req true ∷ after))
written-IsKept m before after req h = record {
  accepted = λ uid r hit. elim (insert-accepted m req uid r hit) [
    | inl (at_uid, same) ↦ (
      ap (λ (q : GlobalScheduleRequest). q.uid) (sym same) ∙ at_uid,
      subst (λ q. IsAccepted q (before ++ (ended req true ∷ after))) same
          (IsAccepted-here req before after),
    )
    | inr old ↦ (
      (h.accepted uid r old).0,
      IsAccepted-replace r before (writing req) (ended req true) after tt (h.accepted uid r old).1,
    )
  ];
  settled =
      All-replace (IsSettled (insert req.uid req m)) before (writing req) (ended req true) after
        (All-weaken (IsSettled m) (IsSettled (insert req.uid req m)) (insert-IsSettled m req) _
          h.settled)
        (ap is_some (lookup-insert_self req.uid req m));
}

after_test-IsSettled :
    {D : Type 0} (s : GcsObjServer D) (req : GlobalScheduleRequest)
    → IsSettled s.lineage (after_test s req)
unfolding after_test lineage_known
after_test-IsSettled s req = elim (Bool-cases (is_some (lookup req.uid s.lineage))) [
  | inl known ↦ rw (known, IsSettled) known
  | inr fresh ↦ rw (fresh, IsSettled) tt
]

module _ {D Tx E : Type 0} (q : Sql D Tx E) (port : ℤ) where
  -- The lineages of the table and the calls, together.
  abbrev pub AreKept : Registering D → Type 0
  AreKept s = IsKept s.server.lineage s.calls

  RegisterStep-IsKept : {s t : Registering D} → AreKept s → RegisterStep q port s t → AreKept t
  unfolding write_lineage
  RegisterStep-IsKept {s} {t} h (enter req e) =
      subst AreKept (sym e) (record { accepted = h.accepted; settled = (tt, h.settled) })
  RegisterStep-IsKept {s} {t} h (test before after req at e) = subst AreKept (sym e) (
      moved-IsKept s.server.lineage before after (testing req) (after_test s.server req) tt
        (after_test-IsSettled s.server req) (subst (IsKept s.server.lineage) at h))
  RegisterStep-IsKept {s} {t} h (write before after req at e) =
      subst AreKept (sym e)
        (written-IsKept s.server.lineage before after req (subst (IsKept s.server.lineage) at h))
  RegisterStep-IsKept {s} {t} h (other_call c one e) =
      subst AreKept (sym e)
        (subst (λ m. IsKept m s.calls) (sym (lineage-call q port s.server c one)) h)

  -- However the steps of calls interleave, those of RegisterLineage with each other and with the
  -- calls of the other handlers and the flushes: the lineage of an object is the request of a call
  -- for the object that was accepted, and an object for which a call has ended, accepted or refused,
  -- has one.
  pub RegisterSteps-IsKept :
      (db : D) {t : Registering D}
      → RegisterSteps q port (record { server = new_gcs_obj_server db; calls = [] }) t
      → AreKept t
  unfolding lookup
  RegisterSteps-IsKept db idle = record {
    accepted = λ uid r hit. absurd (ground (arith, hit));
    settled = tt;
  }
  RegisterSteps-IsKept db (and_then steps step) =
      RegisterStep-IsKept (RegisterSteps-IsKept db steps) step
