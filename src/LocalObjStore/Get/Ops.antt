-- ===== src/LocalObjStore/Get/Ops.antt =====
-- The object store of go/cmd/localobjstore/main.go over time: Store, Copy, and Gets that go on after
-- their callback, in any order and with whatever answers.
use babyray.Common.{
  ℕ, ◌≡◌, refl, sym, subst, true, false, Option, none, some, some-injective, List, [], ◌∷◌, Outcome,
  ok, err, length, ◌==◌, ◌&&◌, ==_iff, if◌then◌else◌, arith, Bool-cases, inl, inr,
}
use babyray.Wire.{Bytes, StoreRequest, GetRequest, LocationFoundCallback, CopyRequest, CopyResponse}
use babyray.LocalObjStore.{
  ObjStore, StoreError, system, not_in_store, no_dial, no_copy, put, store, stored, copy,
}
use babyray.LocalObjStore.Get.{
  Peers, get_resumed, dialled, fetched, cached, get_local, get_sized, other_local_address,
}
use babyray.LocalObjStore.SharedMemory.{System, IsSystem}
use babyray.LocalObjStore.Get.Holds.{Holds, KeepsOthers, Puts, put-Puts, IsCopy, copy-Copies}

-- A use of the store: Store, Copy, or a Get that goes on after its callback.
pub data Op (E : Type 0) : Type 0 where
  store_op : StoreRequest → Op E
  copy_op : CopyRequest → Op E
  get_op : Peers E → GetRequest → LocationFoundCallback → Op E

-- What the replies say of an object's bytes. A success gives them; after an error of the system nothing
-- is known of them; other errors come before anything is written.
abbrev pub learn :
    {E A : Type 0}
    → (ℕ → Option Bytes)
    → ℕ
    → (A → Bytes)
    → Outcome (StoreError E) A
    → ℕ
    → Option Bytes
learn known uid bytes (ok a) v = if v == uid then some (bytes a) else known v
learn known uid bytes (err (system e)) v = if v == uid then none else known v
learn known uid bytes (err not_in_store) v = known v
learn known uid bytes (err (no_dial e)) v = known v
learn known uid bytes (err (no_copy e)) v = known v

module _ {M R E F : Type 0} (sys : System M R E) where
  unfoldable pub op : ObjStore M F → Op E → ObjStore M F
  op s (store_op req) = (store sys s req).0
  op s (copy_op req) = (copy sys s req).0
  op s (get_op peers req resp) = (get_resumed sys s peers req resp).0

  unfoldable pub learn_op : ObjStore M F → (ℕ → Option Bytes) → Op E → ℕ → Option Bytes
  learn_op s known (store_op req) = learn known req.uid (λ _. req.object_bytes) (store sys s req).2
  learn_op s known (copy_op req) = known
  learn_op s known (get_op peers req resp) =
      if req.copy && req.cache
      then learn known req.uid (λ r. r.object_bytes) (get_resumed sys s peers req resp).2
      else known

  -- The store and what the replies said, after a list of uses.
  unfoldable pub ops :
      ObjStore M F → (ℕ → Option Bytes) → List (Op E) → ObjStore M F × (ℕ → Option Bytes)
  unfolding op learn_op
  ops s known [] = (s, known)
  ops s known (o ∷ os) = ops (op s o) (learn_op s known o) os

module _ {M R E F : Type 0} (sys : System M R E) (h : IsSystem sys) where
  -- What is known of an object's bytes is what the store has.
  abbrev pub AreHeld : (ℕ → Option Bytes) → ObjStore M F → Type 0
  AreHeld known s = (v : ℕ) (b : Bytes) → known v ≡ some b → Holds sys h s v b

  put-AreHeld :
      (s s' : ObjStore M F) (known : ℕ → Option Bytes) (uid : ℕ) (bytes : Bytes)
      → AreHeld known s
      → KeepsOthers sys h s uid s'
      → Holds sys h s' uid bytes
      → AreHeld (λ v. if v == uid then some bytes else known v) s'
  put-AreHeld s s' known uid bytes held kept now v b e = elim (Bool-cases (v == uid)) [
    | inl same ↦
        let eq : bytes ≡ b = some-injective bytes b (ground (arith, e, same)) in
        subst (λ u. Holds sys h s' u b) (sym ((==_iff v uid).0 same))
          (subst (λ c. Holds sys h s' uid c) eq now)
    | inr other ↦
        kept v b (λ eq. ground (arith, ==_iff v uid, other, eq))
          (held v b (ground (arith, e, other)))
  ]

  lose-AreHeld :
      (s s' : ObjStore M F) (known : ℕ → Option Bytes) (uid : ℕ)
      → AreHeld known s
      → KeepsOthers sys h s uid s'
      → AreHeld (λ v. if v == uid then none else known v) s'
  lose-AreHeld s s' known uid held kept v b e = elim (Bool-cases (v == uid)) [
    | inl same ↦ absurd (ground (arith, e, same))
    | inr other ↦
        kept v b (λ eq. ground (arith, ==_iff v uid, other, eq))
          (held v b (ground (arith, e, other)))
  ]

  stored-AreHeld :
      (s : ObjStore M F) (known : ℕ → Option Bytes) (uid : ℕ) (bytes : Bytes)
      (p : ObjStore M F × Outcome (StoreError E) ℕ)
      → AreHeld known s
      → Puts sys h s uid bytes p
      → AreHeld (learn known uid (λ _. bytes) (stored sys uid p).2) (stored sys uid p).0
  unfolding stored
  stored-AreHeld s known uid bytes (s', ok n) held puts =
      put-AreHeld s s' known uid bytes held puts.1 puts.0
  stored-AreHeld s known uid bytes (s', err (system e)) held puts =
      lose-AreHeld s s' known uid held puts.1
  stored-AreHeld s known uid bytes (s', err not_in_store) held puts =
      absurd (ground (arith, puts.0.1))
  stored-AreHeld s known uid bytes (s', err (no_dial e)) held puts =
      absurd (ground (arith, puts.0.1))
  stored-AreHeld s known uid bytes (s', err (no_copy e)) held puts =
      absurd (ground (arith, puts.0.1))

  cached-AreHeld :
      (s : ObjStore M F) (known : ℕ → Option Bytes) (req : GetRequest)
      (resp : LocationFoundCallback) (bytes : Bytes) (p : ObjStore M F × Outcome (StoreError E) ℕ)
      → AreHeld known s
      → Puts sys h s req.uid bytes p
      → let reply = cached req resp bytes p in
        AreHeld (learn known req.uid (λ r. r.object_bytes) reply.2) reply.0
  unfolding cached
  cached-AreHeld s known req resp bytes (s', ok n) held puts =
      put-AreHeld s s' known req.uid bytes held puts.1 puts.0
  cached-AreHeld s known req resp bytes (s', err (system e)) held puts =
      lose-AreHeld s s' known req.uid held puts.1
  cached-AreHeld s known req resp bytes (s', err not_in_store) held puts =
      absurd (ground (arith, puts.0.1))
  cached-AreHeld s known req resp bytes (s', err (no_dial e)) held puts =
      absurd (ground (arith, puts.0.1))
  cached-AreHeld s known req resp bytes (s', err (no_copy e)) held puts =
      absurd (ground (arith, puts.0.1))

  fetched-AreHeld :
      (s : ObjStore M F) (known : ℕ → Option Bytes) (req : GetRequest)
      (resp : LocationFoundCallback) (o : Outcome E CopyResponse)
      → AreHeld known s
      → req.cache ≡ true
      → let reply = fetched sys s req resp o in
        AreHeld (learn known req.uid (λ r. r.object_bytes) reply.2) reply.0
  unfolding fetched
  fetched-AreHeld s known req resp (err e) held cache = held
  fetched-AreHeld s known req resp (ok x) held cache = rw cache (
      cached-AreHeld s known req resp x.object_bytes (put sys s req.uid x.object_bytes) held
        (put-Puts sys h s req.uid x.object_bytes))

  dialled-AreHeld :
      (s : ObjStore M F) (known : ℕ → Option Bytes) (peers : Peers E) (req : GetRequest)
      (resp : LocationFoundCallback) (o : Option E)
      → AreHeld known s
      → req.cache ≡ true
      → let reply = dialled sys s peers req resp o in
        AreHeld (learn known req.uid (λ r. r.object_bytes) reply.2) reply.0
  unfolding dialled
  dialled-AreHeld s known peers req resp (some e) held cache = held
  dialled-AreHeld s known peers req resp none held cache =
      fetched-AreHeld s known req resp _ held cache

  fetched-same :
      (s : ObjStore M F) (req : GetRequest) (resp : LocationFoundCallback)
      (o : Outcome E CopyResponse)
      → req.cache ≡ false
      → (fetched sys s req resp o).0 ≡ s
  unfolding fetched
  fetched-same s req resp (err e) off = refl
  fetched-same s req resp (ok x) off = rw off refl

  dialled-same :
      (s : ObjStore M F) (peers : Peers E) (req : GetRequest) (resp : LocationFoundCallback)
      (o : Option E)
      → req.cache ≡ false
      → (dialled sys s peers req resp o).0 ≡ s
  unfolding dialled
  dialled-same s peers req resp (some e) off = refl
  dialled-same s peers req resp none off = fetched-same s req resp _ off

  op-AreHeld :
      (s : ObjStore M F) (known : ℕ → Option Bytes) (o : Op E)
      → AreHeld known s
      → AreHeld (learn_op sys s known o) (op sys s o)
  unfolding op learn_op store get_resumed
  op-AreHeld s known (store_op req) held =
      stored-AreHeld s known req.uid req.object_bytes (put sys s req.uid req.object_bytes) held
        (put-Puts sys h s req.uid req.object_bytes)
  op-AreHeld s known (copy_op req) held = λ v b e. (copy-Copies sys h s req).0 v b (held v b e)
  op-AreHeld s known (get_op peers req resp) held = elim (Bool-cases req.copy) [
    | inr no_copying ↦ rw no_copying held
    | inl copying ↦ rw copying (elim (Bool-cases req.cache) [
      | inl caching ↦ rw caching (
          dialled-AreHeld s known peers (record req { copy = true; cache = true }) resp _ held refl)
      | inr uncached ↦ rw uncached (
          rw
            (dialled-same s peers (record req { copy = true; cache = false }) resp
              (peers.dial (other_local_address peers resp)) refl)
            held)
    ])
  ]

  ops-AreHeld :
      (s : ObjStore M F) (known : ℕ → Option Bytes) (os : List (Op E))
      → AreHeld known s
      → AreHeld (ops sys s known os).1 (ops sys s known os).0
  unfolding ops
  ops-AreHeld s known [] held = held
  ops-AreHeld s known (o ∷ os) held =
      ops-AreHeld (op sys s o) (learn_op sys s known o) os (op-AreHeld s known o held)

  get_local-Holds :
      (s : ObjStore M F) (req : GetRequest) (b : Bytes)
      → Holds sys h s req.uid b
      → get_local s req
        ≡ some (record { uid = req.uid; object_bytes = []; is_local = true; size = length b })
  unfolding get_local get_sized
  get_local-Holds s req b was = rw was.sized refl

  -- After any uses of a store about which nothing was known: for an object whose last write succeeded,
  -- by Store or by a Get that caches, with no error of the system in a write since, the local Get
  -- replies that the object is local, with the size of the bytes that were written and with no bytes,
  -- and Copy gives exactly the bytes that were written or an error of the system.
  pub ops-Holds :
      (s : ObjStore M F) (os : List (Op E)) (req : GetRequest) (requester : ℕ) (b : Bytes)
      → (ops sys s (λ _. none) os).1 req.uid ≡ some b
      → let after = (ops sys s (λ _. none) os).0 in
        (get_local after req
          ≡ some (record { uid = req.uid; object_bytes = []; is_local = true; size = length b }))
        × IsCopy b (copy sys after (record { uid = req.uid; requester = requester })).1
  ops-Holds s os req requester b e =
      let held =
        ops-AreHeld s (λ _. none) os (λ v c clash. absurd (ground (arith, clash))) req.uid b e in
      let after = (ops sys s (λ _. none) os).0 in
      (
        get_local-Holds after req b held,
        (copy-Copies sys h after (record { uid = req.uid; requester = requester })).1 b held,
      )
