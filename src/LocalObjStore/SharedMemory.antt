-- ===== src/LocalObjStore/SharedMemory.antt =====
-- go/cmd/localobjstore/main.go: `createSharedMemory` and `readSharedMemory`, over the calls of the
-- system that they make.
pub mod Contents
use babyray.Common.{
  ℕ, ◌≤◌, ◌<◌, ◌≡◌, ◌≢◌, Bool, true, false, List, [], Option, none, some, Outcome, ok, err,
  map_outcome, length, ◌++◌,
}
use babyray.Common.Text.{Text, ascii}
use babyray.Wire.{Bytes}

-- The calls on shared memory in a state `M` of the system, with errors in `E`; a mapping `R` is the
-- slice that Mmap gives.
pub record System (M R E : Type 0) : Type 0 where
  pub sys_open : M → Text → (create : Bool) → Outcome E (M × ℕ)
  pub ftruncate : M → ℕ → ℕ → Outcome E M
  pub mmap : M → ℕ → ℕ → Outcome E R
  pub close : M → ℕ → Outcome E M
  pub unlink : M → Text → Outcome E M
  pub copy_into : M → R → Bytes → M
  pub bytes_at : M → R → Bytes

-- What the system documents of them: `contents` is a file's bytes, `file_of` the file that is open at
-- a descriptor, `mapped` and `mapped_length` the file and the length of a mapping.
pub record IsSystem {M R E : Type 0} (sys : System M R E) : Type 0 where
  pub contents : M → Text → Bytes
  pub file_of : M → ℕ → Text
  pub mapped : R → Text
  pub mapped_length : R → ℕ
  pub open_file :
      (m : M) (path : Text) (create : Bool) (m' : M) (fd : ℕ)
      → sys.sys_open m path create ≡ ok (m', fd)
      → (file_of m' fd ≡ path) × ((q : Text) → contents m' q ≡ contents m q)
  pub ftruncate_length :
      (m : M) (fd size : ℕ) (m' : M)
      → sys.ftruncate m fd size ≡ ok m'
      → (file_of m' fd ≡ file_of m fd)
        × (length (contents m' (file_of m fd)) ≡ size)
        × ((q : Text) → q ≢ file_of m fd → contents m' q ≡ contents m q)
  pub mmap_region :
      (m : M) (fd size : ℕ) (r : R)
      → sys.mmap m fd size ≡ ok r
      → (mapped r ≡ file_of m fd) × (mapped_length r ≡ size) × (0 < size)
  pub close_contents :
      (m : M) (fd : ℕ) (m' : M) → sys.close m fd ≡ ok m' → (q : Text) → contents m' q ≡ contents m q
  pub copy_into_contents :
      (m : M) (r : R) (bytes : Bytes)
      → length bytes ≡ mapped_length r
      → length (contents m (mapped r)) ≡ mapped_length r
      → (contents (sys.copy_into m r bytes) (mapped r) ≡ bytes)
        × ((q : Text) → q ≢ mapped r → contents (sys.copy_into m r bytes) q ≡ contents m q)
  pub bytes_at_contents :
      (m : M) (r : R)
      → length (contents m (mapped r)) ≡ mapped_length r
      → sys.bytes_at m r ≡ contents m (mapped r)

unfoldable pub shm_path : Text → Text
shm_path name = ascii "/dev/shm/" ++ name

module _ {M R E : Type 0} (sys : System M R E) where
  map_created : M → ℕ → Outcome E R → M × Outcome E (R × ℕ)
  map_created m fd (err e) = (m, err e)
  map_created m fd (ok r) = (m, ok (r, fd))

  resize : M → ℕ → ℕ → Outcome E M → M × Outcome E (R × ℕ)
  unfolding map_created
  resize m fd size (err e) = (m, err e)
  resize m fd size (ok m') = map_created m' fd (sys.mmap m' fd size)

  create_at : M → ℕ → Outcome E (M × ℕ) → M × Outcome E (R × ℕ)
  unfolding resize
  create_at m size (err e) = (m, err e)
  create_at m size (ok (m', fd)) = resize m' fd size (sys.ftruncate m' fd size)

  -- `createSharedMemory`; the descriptor stays open, also after an error.
  unfoldable pub create_shared_memory : M → Text → ℕ → M × Outcome E (R × ℕ)
  unfolding create_at shm_path
  create_shared_memory m name size = create_at m size (sys.sys_open m (shm_path name) true)

  close_mapped : M → R → Outcome E M → M × Outcome E R
  close_mapped m r (err e) = (m, err e)
  close_mapped m r (ok m') = (m', ok r)

  map_opened : M → ℕ → Outcome E R → M × Outcome E R
  unfolding close_mapped
  map_opened m fd (err e) = (m, err e)
  map_opened m fd (ok r) = close_mapped m r (sys.close m fd)

  read_at : M → ℕ → Outcome E (M × ℕ) → M × Outcome E R
  unfolding map_opened
  read_at m size (err e) = (m, err e)
  read_at m size (ok (m', fd)) = map_opened m' fd (sys.mmap m' fd size)

  -- `readSharedMemory`; the error's text is left out.
  unfoldable pub read_shared_memory : M → Text → ℕ → M × Outcome E R
  unfolding read_at shm_path
  read_shared_memory m name size = read_at m size (sys.sys_open m (shm_path name) false)

  unlinked : M → Outcome E M → M × Option E
  unlinked m (err e) = (m, some e)
  unlinked m (ok m') = (m', none)

  closed : M → Text → Outcome E M → M × Option E
  unfolding unlinked shm_path
  closed m name (err e) = (m, some e)
  closed m name (ok m') = unlinked m' (sys.unlink m' (shm_path name))

  -- `deleteSharedMemory`, which nothing calls.
  pub delete_shared_memory : M → Text → ℕ → M × Option E
  unfolding closed
  delete_shared_memory m name fd = closed m name (sys.close m fd)
