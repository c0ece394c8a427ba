-- ===== src/ObjTable/Locations/Waiters.antt =====
-- The waiting clients of go/cmd/gcsobjtable/main.go: who is added to the waitlist, who is called back.
use babyray.Common.{
  ℕ, ◌+◌, ◌≡◌, refl, ap, ◌∙◌, inl, inr, ==_iff, Bool, ◌&&◌, Option, none, some, List, [], ◌∷◌, ◌++◌,
  arith, ◌==◌, if◌then◌else◌, Outcome, ok, err, Bool-cases,
}
use babyray.Common.Text.{Text}
use babyray.Common.Integers.{ℤ}
use babyray.Common.Dict.{lookup, delete, or_else, lookup-insert, lookup-delete}
use babyray.Wire.{NotifyOwnsRequest, RequestLocationRequest, RequestLocationResponse}
use babyray.ObjTable.Database.{Sql}
use babyray.ObjTable.Server.{GcsObjServer, Address, Callback, ObjError}
use babyray.ObjTable.Locations.{
  callbacks_to, client_address, from_disk, from_cache, get_node_id, add_location, clear_waitlist,
  notify_owns, add_waiting, located, request_location,
}

-- How many addresses of a list pass a test.
unfoldable pub count_if : (Address → Bool) → List Address → ℕ
count_if p [] = 0
count_if p (a ∷ rest) = (if p a then 1 else 0) + count_if p rest

-- How many callbacks of a list go to such an address for an object.
unfoldable pub answered : (Address → Bool) → ℕ → List Callback → ℕ
answered p u [] = 0
answered p u (c ∷ cs) = (if c.uid == u && p c.client_address then 1 else 0) + answered p u cs

-- How many such addresses stand on the waitlist of an object.
abbrev pub waiting : {D : Type 0} → (Address → Bool) → ℕ → GcsObjServer D → ℕ
waiting p u s = count_if p (or_else [] (lookup u s.waitlist))

-- 1 if a request for the object from such an address was answered without an error.
abbrev pub asked :
    {E : Type 0}
    → (Address → Bool)
    → ℕ
    → ℤ
    → Option Text
    → RequestLocationRequest
    → Outcome (ObjError E) RequestLocationResponse
    → ℕ
asked p u port none req r = 0
asked p u port (some peer) req (err e) = 0
asked p u port (some peer) req (ok r) =
    if req.uid == u && p (client_address port peer) then 1 else 0

count_if-append :
    (p : Address → Bool) (xs ys : List Address)
    → count_if p (xs ++ ys) ≡ count_if p xs + count_if p ys
unfolding count_if
count_if-append p [] ys = omega arith
count_if-append p (x ∷ xs) ys = omega (arith, count_if-append p xs ys)

pub answered-append :
    (p : Address → Bool) (u : ℕ) (xs ys : List Callback)
    → answered p u (xs ++ ys) ≡ answered p u xs + answered p u ys
unfolding answered
answered-append p u [] ys = omega arith
answered-append p u (x ∷ xs) ys = omega (arith, answered-append p u xs ys)

answered-callbacks_to :
    (p : Address → Bool) (u : ℕ) (waiters : List Address) (uid node : ℕ)
    → answered p u (callbacks_to waiters uid node) ≡ (if uid == u then count_if p waiters else 0)
unfolding answered callbacks_to count_if
answered-callbacks_to p u [] uid node = ground arith
answered-callbacks_to p u (a ∷ rest) uid node =
    ground (arith, answered-callbacks_to p u rest uid node)

module _ {D : Type 0} (p : Address → Bool) (u : ℕ) where
  waitlist-add_location :
      (s : GcsObjServer D) (req : NotifyOwnsRequest) (o : Option (List ℕ))
      → (add_location s req o).waitlist ≡ s.waitlist
  unfolding add_location
  waitlist-add_location s req none = refl
  waitlist-add_location s req (some ns) = refl

  clear_waitlist-waiting :
      (s : GcsObjServer D) (req : NotifyOwnsRequest) (o : Option (List Address))
      → lookup req.uid s.waitlist ≡ o
      → waiting p u (clear_waitlist s req o).0 + answered p u (clear_waitlist s req o).1
        ≡ waiting p u s
  unfolding clear_waitlist answered count_if
  clear_waitlist-waiting s req none e = omega arith
  clear_waitlist-waiting s req (some waiters) e = elim (Bool-cases (req.uid == u)) [
    | inl same ↦ ground (
      arith,
      answered-callbacks_to p u waiters req.uid req.node_id,
      lookup-delete req.uid u s.waitlist,
      ==_iff req.uid u,
      e,
    )
    | inr other ↦ ground (
      arith,
      answered-callbacks_to p u waiters req.uid req.node_id,
      lookup-delete req.uid u s.waitlist,
    )
  ]

  -- NotifyOwns turns waiting clients into callbacks, none lost and none called twice.
  pub notify_owns-waiting :
      (s : GcsObjServer D) (req : NotifyOwnsRequest)
      → waiting p u (notify_owns s req).0 + answered p u (notify_owns s req).1 ≡ waiting p u s
  unfolding notify_owns
  notify_owns-waiting s req =
      let s' = record s { generating = delete req.uid s.generating } in
      let same = waitlist-add_location s' req (lookup req.uid s.object_locations) in
      clear_waitlist-waiting (add_location s' req (lookup req.uid s.object_locations)) req
        (lookup req.uid s.waitlist) (ap (lookup req.uid) same)
      ∙ ap (λ w. count_if p (or_else [] (lookup u w))) same

  add_waiting-waiting :
      (s s' : GcsObjServer D) (uid : ℕ) (a : Address)
      → s'.waitlist ≡ s.waitlist
      → waiting p u (add_waiting s' uid a) + 0 ≡ waiting p u s + (if uid == u && p a then 1 else 0)
  unfolding add_waiting count_if
  add_waiting-waiting s s' uid a h = ground (
    arith,
    h,
    lookup-insert uid u (or_else [] (lookup uid s'.waitlist) ++ a ∷ []) s'.waitlist,
    count_if-append p (or_else [] (lookup uid s'.waitlist)) (a ∷ []),
    ==_iff uid u,
  )

  located-waiting :
      {E : Type 0} (s : GcsObjServer D) (port : ℤ) (peer : Text) (req : RequestLocationRequest)
      (r : GcsObjServer D × Outcome E (Option ℕ))
      → r.0.waitlist ≡ s.waitlist
      → let (s', sent, reply) = located req.uid (client_address port peer) r in
        waiting p u s' + answered p u sent ≡ waiting p u s + asked p u port (some peer) req reply
  unfolding located answered
  located-waiting s port peer req (s', err e) h = rw h (omega arith)
  located-waiting s port peer req (s', ok none) h =
      add_waiting-waiting s s' req.uid (client_address port peer) h
  located-waiting s port peer req (s', ok (some node)) h = rw h (ground arith)

  waitlist-from_disk :
      {E : Type 0} (intn : ℕ → ℕ) (s : GcsObjServer D) (uid : ℕ) (o : Outcome E (List ℕ))
      → (from_disk intn s uid o).0.waitlist ≡ s.waitlist
  unfolding from_disk
  waitlist-from_disk intn s uid (ok ns) = refl
  waitlist-from_disk intn s uid (err e) = refl

  waitlist-from_cache :
      {Tx E : Type 0} (q : Sql D Tx E) (intn : ℕ → ℕ) (s : GcsObjServer D) (uid : ℕ) (ns : List ℕ)
      → (from_cache q intn s uid ns).0.waitlist ≡ s.waitlist
  unfolding from_cache
  waitlist-from_cache q intn s uid [] = waitlist-from_disk intn s uid _
  waitlist-from_cache q intn s uid (n ∷ ns) = refl

  -- A request that is answered is called back at once or waits; one that fails does neither.
  pub request_location-waiting :
      {Tx E : Type 0} (q : Sql D Tx E) (intn : ℕ → ℕ) (port : ℤ) (s : GcsObjServer D)
      (peer : Option Text) (req : RequestLocationRequest)
      → let (s', sent, reply) = request_location q intn port s peer req in
        waiting p u s' + answered p u sent ≡ waiting p u s + asked p u port peer req reply
  unfolding request_location answered
  request_location-waiting q intn port s none req = omega arith
  request_location-waiting q intn port s (some peer) req =
      located-waiting s port peer req (get_node_id q intn s req.uid)
        (unfold get_node_id in waitlist-from_cache q intn s req.uid _)

  clear_waitlist-waiting_self :
      (s : GcsObjServer D) (req : NotifyOwnsRequest) (o : Option (List Address))
      → lookup req.uid s.waitlist ≡ o
      → waiting p req.uid (clear_waitlist s req o).0 ≡ 0
  unfolding clear_waitlist count_if
  clear_waitlist-waiting_self s req none e = ground (arith, e)
  clear_waitlist-waiting_self s req (some w) e =
      ground (arith, lookup-delete req.uid req.uid s.waitlist)

  -- After NotifyOwns nobody waits for the object.
  pub notify_owns-waiting_self :
      (s : GcsObjServer D) (req : NotifyOwnsRequest) → waiting p req.uid (notify_owns s req).0 ≡ 0
  unfolding notify_owns
  notify_owns-waiting_self s req =
      let s' = record s { generating = delete req.uid s.generating } in
      clear_waitlist-waiting_self (add_location s' req (lookup req.uid s.object_locations)) req
        (lookup req.uid s.waitlist)
        (ap (lookup req.uid) (waitlist-add_location s' req (lookup req.uid s.object_locations)))
