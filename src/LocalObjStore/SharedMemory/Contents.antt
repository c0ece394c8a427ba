-- ===== src/LocalObjStore/SharedMemory/Contents.antt =====
-- What `createSharedMemory` and `readSharedMemory` of go/cmd/localobjstore/main.go do to the files of
-- shared memory, on each of their ways out.
use babyray.Common.{ℕ, ◌≡◌, ◌≢◌, refl, ◌∙◌, subst, true, false, Outcome, ok, err, length}
use babyray.Common.Text.{Text, ascii, format_uint, format_uint_injective, append_cancel_left}
use babyray.LocalObjStore.SharedMemory.{
  System, IsSystem, shm_path, map_created, resize, create_at, create_shared_memory, close_mapped,
  map_opened, read_at, read_shared_memory,
}

pub shm_path_injective : (u v : ℕ) → shm_path (format_uint u) ≡ shm_path (format_uint v) → u ≡ v
unfolding shm_path
shm_path_injective u v e = format_uint_injective u v (append_cancel_left (ascii "/dev/shm/") _ _ e)

module _ {M R E : Type 0} (sys : System M R E) (h : IsSystem sys) where
  abbrev pub IsKept : M → M → Text → Type 0
  IsKept m m' path = (q : Text) → q ≢ path → h.contents m' q ≡ h.contents m q

  -- A mapping of the whole of a file of the given size, no other file touched; after an error that
  -- file alone may be changed.
  abbrev pub Creates : M → Text → ℕ → M × Outcome E (R × ℕ) → Type 0
  Creates m path size (m', err e) = IsKept m m' path
  Creates m path size (m', ok (r, fd)) =
      (h.mapped r ≡ path)
      × (h.mapped_length r ≡ size)
      × (length (h.contents m' path) ≡ size)
      × IsKept m m' path

  map_created-Creates :
      (m m' : M) (path : Text) (fd size : ℕ) (o : Outcome E R)
      → sys.mmap m' fd size ≡ o
      → h.file_of m' fd ≡ path
      → length (h.contents m' path) ≡ size
      → IsKept m m' path
      → Creates m path size (map_created sys m' fd o)
  unfolding map_created
  map_created-Creates m m' path fd size (err e) eq file len kept = kept
  map_created-Creates m m' path fd size (ok r) eq file len kept =
      let region = h.mmap_region m' fd size r eq in (region.0 ∙ file, region.1, len, kept)

  resize-Creates :
      (m m' : M) (path : Text) (fd size : ℕ) (o : Outcome E M)
      → sys.ftruncate m' fd size ≡ o
      → h.file_of m' fd ≡ path
      → IsKept m m' path
      → Creates m path size (resize sys m' fd size o)
  unfolding resize
  resize-Creates m m' path fd size (err e) eq file kept = kept
  resize-Creates m m' path fd size (ok m2) eq file kept =
      let cut = h.ftruncate_length m' fd size m2 eq in
      map_created-Creates m m2 path fd size (sys.mmap m2 fd size) refl (cut.0 ∙ file)
        (subst (λ p. length (h.contents m2 p) ≡ size) file cut.1)
        (λ q other. cut.2 q (λ same. other (same ∙ file)) ∙ kept q other)

  create_at-Creates :
      (m : M) (path : Text) (size : ℕ) (o : Outcome E (M × ℕ))
      → sys.sys_open m path true ≡ o
      → Creates m path size (create_at sys m size o)
  unfolding create_at
  create_at-Creates m path size (err e) eq = λ q other. refl
  create_at-Creates m path size (ok (m', fd)) eq =
      let opened = h.open_file m path true m' fd eq in
      resize-Creates m m' path fd size (sys.ftruncate m' fd size) refl opened.0
        (λ q other. opened.1 q)

  pub create_shared_memory-Creates :
      (m : M) (name : Text) (size : ℕ)
      → Creates m (shm_path name) size (create_shared_memory sys m name size)
  unfolding create_shared_memory
  create_shared_memory-Creates m name size =
      create_at-Creates m (shm_path name) size (sys.sys_open m (shm_path name) true) refl

  -- Reading changes no file, and maps the named one.
  abbrev pub Reads : M → Text → ℕ → M × Outcome E R → Type 0
  Reads m path size (m', err e) = (q : Text) → h.contents m' q ≡ h.contents m q
  Reads m path size (m', ok r) =
      (h.mapped r ≡ path)
      × (h.mapped_length r ≡ size)
      × ((q : Text) → h.contents m' q ≡ h.contents m q)

  close_mapped-Reads :
      (m m' : M) (path : Text) (fd size : ℕ) (r : R) (o : Outcome E M)
      → sys.close m' fd ≡ o
      → h.mapped r ≡ path
      → h.mapped_length r ≡ size
      → ((q : Text) → h.contents m' q ≡ h.contents m q)
      → Reads m path size (close_mapped sys m' r o)
  unfolding close_mapped
  close_mapped-Reads m m' path fd size r (err e) eq file len kept = kept
  close_mapped-Reads m m' path fd size r (ok m2) eq file len kept =
      (file, len, λ q. h.close_contents m' fd m2 eq q ∙ kept q)

  map_opened-Reads :
      (m m' : M) (path : Text) (fd size : ℕ) (o : Outcome E R)
      → sys.mmap m' fd size ≡ o
      → h.file_of m' fd ≡ path
      → ((q : Text) → h.contents m' q ≡ h.contents m q)
      → Reads m path size (map_opened sys m' fd o)
  unfolding map_opened
  map_opened-Reads m m' path fd size (err e) eq file kept = kept
  map_opened-Reads m m' path fd size (ok r) eq file kept =
      let region = h.mmap_region m' fd size r eq in
      close_mapped-Reads m m' path fd size r (sys.close m' fd) refl (region.0 ∙ file) region.1 kept

  read_at-Reads :
      (m : M) (path : Text) (size : ℕ) (o : Outcome E (M × ℕ))
      → sys.sys_open m path false ≡ o
      → Reads m path size (read_at sys m size o)
  unfolding read_at
  read_at-Reads m path size (err e) eq = λ q. refl
  read_at-Reads m path size (ok (m', fd)) eq =
      let opened = h.open_file m path false m' fd eq in
      map_opened-Reads m m' path fd size (sys.mmap m' fd size) refl opened.0 opened.1

  pub read_shared_memory-Reads :
      (m : M) (name : Text) (size : ℕ)
      → Reads m (shm_path name) size (read_shared_memory sys m name size)
  unfolding read_shared_memory
  read_shared_memory-Reads m name size =
      read_at-Reads m (shm_path name) size (sys.sys_open m (shm_path name) false) refl
