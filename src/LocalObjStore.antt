-- ===== src/LocalObjStore.antt =====
-- go/cmd/localobjstore/main.go: the store's state and its handlers `Store` and `Copy`;
-- `Get` and `AvgBandwidth` are in Get.
pub mod SharedMemory
pub mod Get
pub mod PlainMemory
pub mod Channels
mod Tests
use babyray.Common.{
  ℕ, Bool, true, false, Option, none, some, List, [], ◌∷◌, String, length, ◌==◌, if◌then◌else◌,
  Outcome, ok, err,
}
use babyray.Common.Dict.{Dict, lookup, insert}
use babyray.Common.Text.{format_uint}
use babyray.Wire.{
  Bytes, StatusResponse, status, StoreRequest, GetRequest, GetResponse, LocationFoundCallback,
  CopyRequest, CopyResponse, NotifyOwnsRequest, BandwidthResponse,
}
use babyray.LocalObjStore.SharedMemory.{System, create_shared_memory, read_shared_memory}

-- The server and the memory of its machine. `localObjectStore` is never used.
pub record ObjStore (M F : Type 0) : Type 0 where
  pub memory : M
  pub object_sizes : Dict ℕ
  pub local_node_id : ℕ
  pub avg_bandwidth : F

pub data StoreError (E : Type 0) : Type 0 where
  system : E → StoreError E
  not_in_store : StoreError E
  no_dial : E → StoreError E
  no_copy : E → StoreError E

module _ {M R E F : Type 0} (sys : System M R E) where
  -- The common part of Store and of Get: the bytes go to shared memory, and then the size is recorded.
  put_mapped :
      ObjStore M F → ℕ → Bytes → M × Outcome E (R × ℕ) → ObjStore M F × Outcome (StoreError E) ℕ
  put_mapped s uid bytes (m, err e) = (record s { memory = m }, err (system e))
  put_mapped s uid bytes (m, ok (r, fd)) = (
    record s {
      memory = sys.copy_into m r bytes;
      object_sizes = insert uid (length bytes) s.object_sizes;
    },
    ok (length bytes),
  )

  unfoldable pub put : ObjStore M F → ℕ → Bytes → ObjStore M F × Outcome (StoreError E) ℕ
  unfolding put_mapped
  put s uid bytes =
      put_mapped s uid bytes (create_shared_memory sys s.memory (format_uint uid) (length bytes))

  stored :
      ℕ
      → ObjStore M F × Outcome (StoreError E) ℕ
      → ObjStore M F × List NotifyOwnsRequest × Outcome (StoreError E) StatusResponse
  stored uid (s, err e) = (s, [], err e)
  stored uid (s, ok size) = (
    s,
    record { uid = uid; node_id = s.local_node_id; object_size = size } ∷ [],
    ok (status true),
  )

  -- `Store`, with the NotifyOwns calls that it makes; their errors are dropped.
  unfoldable pub store :
      ObjStore M F
      → StoreRequest
      → ObjStore M F × List NotifyOwnsRequest × Outcome (StoreError E) StatusResponse
  unfolding stored put
  store s req = stored req.uid (put s req.uid req.object_bytes)

  copied : ObjStore M F → ℕ → M × Outcome E R → ObjStore M F × Outcome (StoreError E) CopyResponse
  copied s uid (m, err e) = (record s { memory = m }, err (system e))
  copied s uid (m, ok r) =
      (record s { memory = m }, ok (record { uid = uid; object_bytes = sys.bytes_at m r }))

  copy_sized : ObjStore M F → ℕ → Option ℕ → ObjStore M F × Outcome (StoreError E) CopyResponse
  unfolding copied
  copy_sized s uid none = (s, err not_in_store)
  copy_sized s uid (some size) =
      copied s uid (read_shared_memory sys s.memory (format_uint uid) size)

  -- `Copy`
  unfoldable pub copy :
      ObjStore M F → CopyRequest → ObjStore M F × Outcome (StoreError E) CopyResponse
  unfolding copy_sized
  copy s req = copy_sized s req.uid (lookup req.uid s.object_sizes)
