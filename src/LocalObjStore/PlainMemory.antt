-- ===== src/LocalObjStore/PlainMemory.antt =====
-- A small system with shared memory that keeps what `IsSystem` asks of the calls of
-- go/cmd/localobjstore/main.go: files by their paths, and one descriptor.
use babyray.Common.{
  ℕ, zero, suc, ◌<◌, ◌≡◌, ◌≢◌, refl, sym, ap, ◌∙◌, subst, Bool, true, false, [], ◌∷◌, Outcome, ok,
  ok_injective, err, length, ltb, ltb→lt, if◌then◌else◌, arith, Bool-cases, inl, inr,
}
use babyray.Common.Text.{Text, ◌=text=◌, =text=_iff}
use babyray.Wire.{Bytes}
use babyray.LocalObjStore.SharedMemory.{System, IsSystem}

pub record Files : Type 0 where
  pub bytes_of : Text → Bytes
  pub last_opened : Text

pub record Region : Type 0 where
  pub path : Text
  pub size : ℕ

abbrev write : Files → Text → Bytes → Files
write m path bytes = record m { bytes_of = λ q. if q =text= path then bytes else m.bytes_of q }

abbrev resize : ℕ → Bytes → Bytes
resize zero bytes = []
resize (suc n) [] = 0 ∷ resize n []
resize (suc n) (b ∷ bytes) = b ∷ resize n bytes

abbrev map_if : Bool → Files → ℕ → Outcome ℕ Region
map_if true m size = ok (record { path = m.last_opened; size = size })
map_if false m size = err 22

abbrev pub plain_memory : System Files Region ℕ
plain_memory = record {
  sys_open = λ m path create. ok (record m { last_opened = path }, 3);
  ftruncate = λ m fd size. ok (write m m.last_opened (resize size (m.bytes_of m.last_opened)));
  mmap = λ m fd size. map_if (ltb 0 size) m size;
  close = λ m fd. ok m;
  unlink = λ m path. ok (write m path []);
  copy_into = λ m r bytes. write m r.path bytes;
  bytes_at = λ m r. m.bytes_of r.path;
}

length-resize : (n : ℕ) (bytes : Bytes) → length (resize n bytes) ≡ n
length-resize zero bytes = refl
length-resize (suc n) [] = ap suc (length-resize n [])
length-resize (suc n) (b ∷ bytes) = ap suc (length-resize n bytes)

write_self : (m : Files) (path : Text) (bytes : Bytes) → (write m path bytes).bytes_of path ≡ bytes
write_self m path bytes = rw ((=text=_iff path path).1 refl) refl

write_other :
    (m : Files) (path q : Text) (bytes : Bytes)
    → q ≢ path
    → (write m path bytes).bytes_of q ≡ m.bytes_of q
write_other m path q bytes other = elim (Bool-cases (q =text= path)) [
  | inl same ↦ absurd (other ((=text=_iff q path).0 same))
  | inr differ ↦ rw differ refl
]

map_if-region :
    (m : Files) (size : ℕ) (r : Region) (fits : Bool)
    → ltb 0 size ≡ fits
    → map_if fits m size ≡ ok r
    → (r.path ≡ m.last_opened) × (r.size ≡ size) × (0 < size)
map_if-region m size r true some_bytes e =
    subst (λ r'. (r'.path ≡ m.last_opened) × (r'.size ≡ size) × (0 < size)) (ok_injective _ _ e)
      (refl, refl, ltb→lt 0 size some_bytes)
map_if-region m size r false no_bytes e = absurd (ground (arith, e))

pub plain_memory-IsSystem : IsSystem plain_memory
plain_memory-IsSystem = record {
  contents = λ m q. m.bytes_of q;
  file_of = λ m fd. m.last_opened;
  mapped = λ r. r.path;
  mapped_length = λ r. r.size;
  open_file = λ m path create m' fd e.
      subst (λ p. (p.0.last_opened ≡ path) × ((q : Text) → p.0.bytes_of q ≡ m.bytes_of q))
        (ok_injective _ _ e) (refl, λ q. refl);
  ftruncate_length = λ m fd size m' e.
      let bytes = resize size (m.bytes_of m.last_opened) in
      subst
        (λ m2.
          (m2.last_opened ≡ m.last_opened)
          × (length (m2.bytes_of m.last_opened) ≡ size)
          × ((q : Text) → q ≢ m.last_opened → m2.bytes_of q ≡ m.bytes_of q))
        (ok_injective _ _ e)
        (
          refl,
          ap length (write_self m m.last_opened bytes) ∙ length-resize size _,
          λ q other. write_other m m.last_opened q bytes other,
        );
  mmap_region = λ m fd size r e. map_if-region m size r (ltb 0 size) refl e;
  close_contents = λ m fd m' e q. ap (λ m2. m2.bytes_of q) (sym (ok_injective m m' e));
  copy_into_contents = λ m r bytes len len'.
      (write_self m r.path bytes, λ q other. write_other m r.path q bytes other);
  bytes_at_contents = λ m r len. refl;
}
