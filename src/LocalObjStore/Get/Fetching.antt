-- ===== src/LocalObjStore/Get/Fetching.antt =====
-- Two local object stores (go/cmd/localobjstore/main.go): a Get that the object table
-- (go/cmd/gcsobjtable/main.go) calls back with a node fetches the object from that node.
use babyray.Common.{
  ℕ, ◌≡◌, refl, subst, sym, Bool, true, false, Bool-cases, inl, inr, none, Outcome, ok, err,
}
use babyray.Common.Text.{Text}
use babyray.Common.Integers.{pos}
use babyray.Config.Wiring.{at_node}
use babyray.Wire.{Bytes, GetRequest, CopyRequest, CopyResponse, LocationFoundCallback}
use babyray.ObjTable.Server.{Callback, location_found}
use babyray.LocalObjStore.{ObjStore, StoreError, system, no_copy, no_dial, not_in_store, copy, put}
use babyray.LocalObjStore.SharedMemory.{System, IsSystem}
use babyray.LocalObjStore.Get.{
  Peers, get_resumed, dialled, fetched, cached, other_local_address, GetReply,
}
use babyray.LocalObjStore.Get.Holds.{Holds, Puts, put-Puts, IsCopy, copy-Copies}

-- What another node sees of a reply: the response, or an error made of the handler's.
abbrev pub reply_over :
    {E : Type 0} → (StoreError E → E) → Outcome (StoreError E) CopyResponse → Outcome E CopyResponse
reply_over wrap (ok r) = ok r
reply_over wrap (err e) = err (wrap e)

-- The error of a Get whose callback named a node that has the object: a copy that failed, or the
-- system's.
abbrev pub IsFetchError : {E : Type 0} → StoreError E → Type 0
IsFetchError (system e) = Unit
IsFetchError (no_copy e) = Unit
IsFetchError (no_dial e) = ⊥
IsFetchError not_in_store = ⊥

-- The address of a node's store.
abbrev pub peer_at : {E : Type 0} → Peers E → ℕ → Text
peer_at peers node = at_node peers.node_prefix (pos node) peers.local_object_store

module _ {M R E F : Type 0} (sys : System M R E) (h : IsSystem sys) where
  -- The store after a Get: it has the object too if the Get caches, else it is as before.
  abbrev pub IsCached : Bool → ObjStore M F → ObjStore M F → ℕ → Bytes → Type 0
  IsCached true s s' uid bytes = Holds sys h s' uid bytes
  IsCached false s s' uid bytes = s' ≡ s

  abbrev pub IsFetched : ObjStore M F → GetRequest → Bytes → GetReply M F E → Type 0
  IsFetched s req bytes (s', sent, ok r) =
      (r.uid ≡ req.uid)
      × (r.object_bytes ≡ bytes)
      × (r.is_local ≡ false)
      × IsCached req.cache s s' req.uid bytes
  IsFetched s req bytes (s', sent, err e) = IsFetchError e

  cached-IsFetched :
      (s : ObjStore M F) (req : GetRequest) (resp : LocationFoundCallback) (bytes : Bytes)
      (p : ObjStore M F × Outcome (StoreError E) ℕ)
      → req.cache ≡ true
      → Puts sys h s req.uid bytes p
      → IsFetched s req bytes (cached req resp bytes p)
  unfolding cached
  cached-IsFetched s req resp bytes (s', ok n) on puts = (refl, refl, refl, rw on puts.0)
  cached-IsFetched s req resp bytes (s', err e) on puts = subst IsFetchError (sym puts.0.1) tt

  fetched-IsFetched :
      (s : ObjStore M F) (req : GetRequest) (resp : LocationFoundCallback) (bytes : Bytes)
      (wrap : StoreError E → E) (o : Outcome (StoreError E) CopyResponse)
      → IsCopy bytes o
      → IsFetched s req bytes (fetched sys s req resp (reply_over wrap o))
  unfolding fetched
  fetched-IsFetched s req resp bytes wrap (err e) same = tt
  fetched-IsFetched s req resp bytes wrap (ok x) same =
      subst (λ b. IsFetched s req b (fetched sys s req resp (ok x))) same
        (elim (Bool-cases req.cache) [
          | inl on ↦ rw on (
              cached-IsFetched s (record req { cache = true }) resp x.object_bytes
                (put sys s req.uid x.object_bytes) refl (put-Puts sys h s req.uid x.object_bytes))
          | inr off ↦ rw off (refl, refl, refl, refl)
        ])

  -- Node `a` has the object with these bytes, and the callback names it; the Get wants a copy, and
  -- its calls reach that node. Then it replies with the object's bytes, and has the object itself if
  -- it caches, or it fails because the copy or a call of the system failed.
  pub get_resumed-IsFetched :
      (a b : ObjStore M F) (peers : Peers E) (wrap : StoreError E → E) (req : GetRequest)
      (callback : Callback) (bytes : Bytes)
      → Holds sys h a callback.uid bytes
      → req.copy ≡ true
      → peers.dial (peer_at peers callback.node_id) ≡ none
      → ((creq : CopyRequest)
          → peers.copy_reply (peer_at peers callback.node_id) creq
            ≡ reply_over wrap (copy sys a creq).1)
      → IsFetched b req bytes (get_resumed sys b peers req (location_found callback))
  unfolding get_resumed dialled other_local_address
  get_resumed-IsFetched a b peers wrap req callback bytes has wants dials answers =
      let creq : CopyRequest = record { uid = callback.uid; requester = b.local_node_id } in
      rw wants (
        rw dials (
          rw (answers creq) (
            fetched-IsFetched b (record req { copy = true }) (location_found callback) bytes wrap
              (copy sys a creq).1 ((copy-Copies sys h a creq).1 bytes has))))
