-- ===== src/LocalObjStore/Get/Holds.antt =====
-- The object store of go/cmd/localobjstore/main.go as a map from objects to their bytes: what Store,
-- Copy and a Get that caches do to it.
use babyray.Common.{
  ℕ, ◌≡◌, ◌≢◌, refl, sym, ◌∙◌, subst, Option, none, some, some-injective, List, [], ◌∷◌, Outcome,
  ok, err, length, ==_iff, arith, ap,
}
use babyray.Common.Dict.{lookup, lookup-insert, lookup-insert_self}
use babyray.Common.Text.{format_uint}
use babyray.Wire.{StoreRequest, StatusResponse, NotifyOwnsRequest, Bytes, CopyRequest, CopyResponse}
use babyray.LocalObjStore.{
  ObjStore, StoreError, system, put, put_mapped, store, stored, copy, copied, copy_sized,
}
use babyray.LocalObjStore.SharedMemory.{
  System, IsSystem, shm_path, create_shared_memory, read_shared_memory,
}
use babyray.LocalObjStore.SharedMemory.Contents.{
  Creates, Reads, shm_path_injective, create_shared_memory-Creates, read_shared_memory-Reads,
}

-- A reply with the bytes, or an error of the system, but not that the store has no such object.
abbrev pub IsCopy : {E : Type 0} → Bytes → Outcome (StoreError E) CopyResponse → Type 0
IsCopy bytes (ok r) = r.object_bytes ≡ bytes
IsCopy {E} bytes (err e) = (e' : E) × (e ≡ system e')

module _ {M R E F : Type 0} (sys : System M R E) (h : IsSystem sys) where
  -- The store has the object with these bytes.
  pub record Holds (s : ObjStore M F) (uid : ℕ) (bytes : Bytes) : Type 0 where
    pub sized : lookup uid s.object_sizes ≡ some (length bytes)
    pub held : h.contents s.memory (shm_path (format_uint uid)) ≡ bytes

  abbrev pub KeepsOthers : ObjStore M F → ℕ → ObjStore M F → Type 0
  KeepsOthers s uid s' = (v : ℕ) (b : Bytes) → v ≢ uid → Holds s v b → Holds s' v b

  abbrev pub Puts : ObjStore M F → ℕ → Bytes → ObjStore M F × Outcome (StoreError E) ℕ → Type 0
  Puts s uid bytes (s', err e) = ((e' : E) × (e ≡ system e')) × KeepsOthers s uid s'
  Puts s uid bytes (s', ok size) =
      Holds s' uid bytes
      × KeepsOthers s uid s'
      × (size ≡ length bytes)
      × (s'.local_node_id ≡ s.local_node_id)

  put_mapped-Puts :
      (s : ObjStore M F) (uid : ℕ) (bytes : Bytes) (o : M × Outcome E (R × ℕ))
      → Creates sys h s.memory (shm_path (format_uint uid)) (length bytes) o
      → Puts s uid bytes (put_mapped sys s uid bytes o)
  unfolding put_mapped
  put_mapped-Puts s uid bytes (m, err e) made = (
    (e, refl),
    λ v b other was. record {
      sized = was.sized;
      held = made _ (λ same. other (shm_path_injective v uid same)) ∙ was.held;
    },
  )
  put_mapped-Puts s uid bytes (m, ok (r, fd)) made =
      let wrote =
        h.copy_into_contents m r bytes (sym made.1)
          (ap (λ p. length (h.contents m p)) made.0 ∙ made.2 ∙ sym made.1) in
      (
        record {
          sized = lookup-insert_self uid (length bytes) s.object_sizes;
          held = subst (λ p. h.contents (sys.copy_into m r bytes) p ≡ bytes) made.0 wrote.0;
        },
        λ v b other was. record {
          sized = ground (
            arith,
            lookup-insert uid v (length bytes) s.object_sizes,
            was.sized,
            ==_iff uid v,
            other,
          );
          held =
              wrote.1 _ (λ same. other (shm_path_injective v uid (same ∙ made.0)))
              ∙ made.3 _ (λ same. other (shm_path_injective v uid same))
              ∙ was.held;
        },
        refl,
        refl,
      )

  pub put-Puts :
      (s : ObjStore M F) (uid : ℕ) (bytes : Bytes) → Puts s uid bytes (put sys s uid bytes)
  unfolding put
  put-Puts s uid bytes =
      put_mapped-Puts s uid bytes
        (create_shared_memory sys s.memory (format_uint uid) (length bytes))
        (create_shared_memory-Creates sys h s.memory (format_uint uid) (length bytes))

  abbrev pub Copies : ObjStore M F → ℕ → ObjStore M F × Outcome (StoreError E) CopyResponse → Type 0
  Copies s uid (s', o) =
      ((v : ℕ) (b : Bytes) → Holds s v b → Holds s' v b)
      × ((b : Bytes) → Holds s uid b → IsCopy b o)

  copied-Copies :
      (s : ObjStore M F) (uid size : ℕ) (o : M × Outcome E R)
      → lookup uid s.object_sizes ≡ some size
      → Reads sys h s.memory (shm_path (format_uint uid)) size o
      → Copies s uid (copied sys s uid o)
  unfolding copied
  copied-Copies s uid size (m, err e) known read =
      (λ v b was. record { sized = was.sized; held = read _ ∙ was.held }, λ b was. (e, refl))
  copied-Copies s uid size (m, ok r) known read = (
    λ v b was. record { sized = was.sized; held = read.2 _ ∙ was.held },
    λ b was.
        let here = ap (h.contents m) read.0 ∙ read.2 _ ∙ was.held in
        let size_is : length b ≡ size = some-injective _ _ (sym was.sized ∙ known) in
        h.bytes_at_contents m r (ap length here ∙ size_is ∙ sym read.1) ∙ here,
  )

  copy_sized-Copies :
      (s : ObjStore M F) (uid : ℕ) (o : Option ℕ)
      → lookup uid s.object_sizes ≡ o
      → Copies s uid (copy_sized sys s uid o)
  unfolding copy_sized
  copy_sized-Copies s uid none known =
      (λ v b was. was, λ b was. absurd (ground (arith, was.sized, known)))
  copy_sized-Copies s uid (some size) known =
      copied-Copies s uid size (read_shared_memory sys s.memory (format_uint uid) size) known
        (read_shared_memory-Reads sys h s.memory (format_uint uid) size)

  pub copy-Copies : (s : ObjStore M F) (req : CopyRequest) → Copies s req.uid (copy sys s req)
  unfolding copy
  copy-Copies s req = copy_sized-Copies s req.uid (lookup req.uid s.object_sizes) refl

  -- What Store comes to: with a success the object is held, and announced once, by this node with its
  -- size; with an error nothing is announced. Other objects stay as they were.
  abbrev pub Stores :
      ObjStore M F
      → StoreRequest
      → ObjStore M F × List NotifyOwnsRequest × Outcome (StoreError E) StatusResponse
      → Type 0
  Stores s req (s', sent, err e) = (sent ≡ []) × KeepsOthers s req.uid s'
  Stores s req (s', sent, ok reply) =
      Holds s' req.uid req.object_bytes
      × KeepsOthers s req.uid s'
      × (sent
          ≡ record {
            uid = req.uid;
            node_id = s.local_node_id;
            object_size = length req.object_bytes;
          }
            ∷ [])

  stored-Stores :
      (s : ObjStore M F) (req : StoreRequest) (p : ObjStore M F × Outcome (StoreError E) ℕ)
      → Puts s req.uid req.object_bytes p
      → Stores s req (stored sys req.uid p)
  unfolding stored
  stored-Stores s req (s', err e) puts = (refl, puts.1)
  stored-Stores s req (s', ok size) puts = (puts.0, puts.1, rw puts.2 (rw puts.3 refl))

  pub store-Stores : (s : ObjStore M F) (req : StoreRequest) → Stores s req (store sys s req)
  unfolding store
  store-Stores s req =
      stored-Stores s req (put sys s req.uid req.object_bytes) (put-Puts s req.uid req.object_bytes)
