-- ===== src/LocalObjStore/Channels/Served.antt =====
-- Gets of go/cmd/localobjstore/main.go of which no two wait for one object at a time: each waits on the
-- channel that the map has, and the next LocationFound for its object reaches it.
use babyray.Common.{
  All, All-middle, All-replace, ℕ, ◌+◌, ◌≤◌, ◌≡◌, refl, sym, ap, subst, ◌∙◌, some, List, [], ◌∷◌,
  ◌++◌, ◌==◌, ==_iff, if◌then◌else◌, arith,
}
use babyray.Common.Dict.{Dict, lookup, insert, lookup-insert, lookup-insert_self}
use babyray.Wire.{LocationFoundCallback}
use babyray.LocalObjStore.Channels.{
  GetPc, asking, receiving, resumed, sending, sent, Rendezvous, Meeting, miss, receive, found, meet,
  Meetings, still, next, no_calls,
}

-- The Gets that wait for an object.
abbrev pub waits_for : ℕ → GetPc → ℕ
waits_for uid (asking u) = if u == uid then 1 else 0
waits_for uid (receiving u c) = if u == uid then 1 else 0
waits_for uid (resumed u callback) = 0

abbrev pub waiting_for : ℕ → List GetPc → ℕ
waiting_for uid [] = 0
waiting_for uid (p ∷ ps) = waits_for uid p + waiting_for uid ps

-- Steps after each of which at most one Get waits for any object.
pub data ServedMeetings (s : Rendezvous) : Rendezvous → Type 0 where
  start : ServedMeetings s s
  step :
      {t u : Rendezvous}
      → ServedMeetings s t
      → Meeting t u
      → ((uid : ℕ) → waiting_for uid u.gets ≤ 1)
      → ServedMeetings s u

abbrev IsCurrent : Dict ℕ → GetPc → Type 0
IsCurrent m (asking uid) = (channel : ℕ) × (lookup uid m ≡ some channel)
IsCurrent m (receiving uid channel) = lookup uid m ≡ some channel
IsCurrent m (resumed uid callback) = Unit

insert_other :
    (uid u channel : ℕ) (m : Dict ℕ)
    → (if u == uid then 1 else 0) ≤ 0
    → lookup u (insert uid channel m) ≡ lookup u m
insert_other uid u channel m none_waits =
    ground (arith, lookup-insert uid u channel m, ==_iff u uid, ==_iff uid u, none_waits)

All-IsCurrent-insert :
    (uid channel : ℕ) (m : Dict ℕ) (ps : List GetPc)
    → waiting_for uid ps ≤ 0
    → All (IsCurrent m) ps
    → All (IsCurrent (insert uid channel m)) ps
All-IsCurrent-insert uid channel m [] le h = tt
All-IsCurrent-insert uid channel m (asking u ∷ ps) le h = (
  (h.0.0, insert_other uid u channel m (omega (arith, le)) ∙ h.0.1),
  All-IsCurrent-insert uid channel m ps (omega (arith, le)) h.1,
)
All-IsCurrent-insert uid channel m (receiving u c ∷ ps) le h = (
  insert_other uid u channel m (omega (arith, le)) ∙ h.0,
  All-IsCurrent-insert uid channel m ps (omega (arith, le)) h.1,
)
All-IsCurrent-insert uid channel m (resumed u callback ∷ ps) le h =
    (tt, All-IsCurrent-insert uid channel m ps (omega (arith, le)) h.1)

abbrev AreCurrent : Rendezvous → Type 0
AreCurrent s = All (IsCurrent s.local_object_channels) s.gets

Meeting-AreCurrent :
    {s t : Rendezvous}
    → AreCurrent s
    → Meeting s t
    → ((uid : ℕ) → waiting_for uid t.gets ≤ 1)
    → AreCurrent t
Meeting-AreCurrent {s} {t} h (miss uid e) alone =
    let others : waiting_for uid s.gets ≤ 0 =
      ground (arith, subst (λ u. waiting_for uid u.gets ≤ 1) e (alone uid)) in
    subst AreCurrent (sym e) (
      (s.made, lookup-insert_self uid s.made s.local_object_channels),
      All-IsCurrent-insert uid s.made s.local_object_channels s.gets others h,
    )
Meeting-AreCurrent {s} {t} h (receive before after uid channel at there e) alone =
    subst AreCurrent (sym e) (
      All-replace (IsCurrent s.local_object_channels) before (asking uid) (receiving uid channel)
        after (subst (All (IsCurrent s.local_object_channels)) at h) there)
Meeting-AreCurrent {s} {t} h (found callback e) alone = subst AreCurrent (sym e) h
Meeting-AreCurrent {s} {t} h (meet before after before' after' uid channel callback at at' e)
      alone =
    subst AreCurrent (sym e) (
      All-replace (IsCurrent s.local_object_channels) before (receiving uid channel)
        (resumed uid callback) after (subst (All (IsCurrent s.local_object_channels)) at h) tt)

ServedMeetings-AreCurrent : {s : Rendezvous} → ServedMeetings no_calls s → AreCurrent s
ServedMeetings-AreCurrent start = tt
ServedMeetings-AreCurrent (step steps last alone) =
    Meeting-AreCurrent (ServedMeetings-AreCurrent steps) last alone

-- The object's Get has gone on, with the callback.
abbrev pub IsServed : Rendezvous → List GetPc → ℕ → LocationFoundCallback → List GetPc → Type 0
IsServed s before uid callback after =
    (t : Rendezvous) × Meetings s t × (t.gets ≡ before ++ (resumed uid callback ∷ after))

-- A LocationFound that starts now, and its meeting with a Get on the channel that the map has.
serve :
    {r : Rendezvous} (s : Rendezvous) (before after : List GetPc) (uid channel : ℕ)
    (callback : LocationFoundCallback)
    → Meetings r s
    → s.gets ≡ before ++ (receiving uid channel ∷ after)
    → lookup callback.uid s.local_object_channels ≡ some channel
    → IsServed r before uid callback after
serve s before after uid channel callback steps at there =
    let called = record s {
      founds = sending (lookup callback.uid s.local_object_channels) callback ∷ s.founds;
    } in
    (
      record called {
        gets = before ++ (resumed uid callback ∷ after);
        founds = sent callback ∷ s.founds;
      },
      next (next steps (found callback refl)) (
          meet before after [] s.founds uid channel callback at
            (ap (λ o. sending o callback ∷ s.founds) there) refl),
      refl,
    )

serve_waiting :
    (s : Rendezvous) (before after : List GetPc) (p : GetPc) (callback : LocationFoundCallback)
    → waits_for callback.uid p ≡ 1
    → s.gets ≡ before ++ (p ∷ after)
    → IsCurrent s.local_object_channels p
    → IsServed s before callback.uid callback after
serve_waiting s before after (asking u) callback waits at (channel, there) =
    let same : u ≡ callback.uid = ground (arith, waits) in
    let there' = ap (λ v. lookup v s.local_object_channels) (sym same) ∙ there in
    let at' = at ∙ ap (λ v. before ++ (asking v ∷ after)) same in
    let ready = record s { gets = before ++ (receiving callback.uid channel ∷ after) } in
    serve ready before after callback.uid channel callback
      (next still (receive before after callback.uid channel at' there' refl)) refl there'
serve_waiting s before after (receiving u channel) callback waits at there =
    let same : u ≡ callback.uid = ground (arith, waits) in
    serve s before after callback.uid channel callback still
      (at ∙ ap (λ v. before ++ (receiving v channel ∷ after)) same)
      (ap (λ v. lookup v s.local_object_channels) (sym same) ∙ there)
serve_waiting s before after (resumed u other) callback waits at there =
    absurd (omega (arith, waits))

-- Where no two Gets waited for one object at a time so far, the next LocationFound for an object
-- reaches the Get that waits for it, at whichever step of its wait that Get stands and whichever other
-- calls are under way: there are steps after which the Get has gone on with that callback and every
-- other Get stands where it stood.
pub ServedMeetings-resumed :
    {s : Rendezvous} (before after : List GetPc) (p : GetPc) (callback : LocationFoundCallback)
    → ServedMeetings no_calls s
    → s.gets ≡ before ++ (p ∷ after)
    → waits_for callback.uid p ≡ 1
    → IsServed s before callback.uid callback after
ServedMeetings-resumed {s} before after p callback steps at waits =
    serve_waiting s before after p callback waits at (
      All-middle (IsCurrent s.local_object_channels) before p after
        (subst (All (IsCurrent s.local_object_channels)) at (ServedMeetings-AreCurrent steps)))
