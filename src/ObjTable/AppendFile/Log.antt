-- ===== src/ObjTable/AppendFile/Log.antt =====
-- What WriteObjectLocationsToAOF of go/cmd/gcsobjtable/main.go leaves in its file, and how it reads
-- back.
use babyray.Common.{
  ℕ, zero, suc, ◌+◌, ◌<◌, ◌≤◌, ◌≡◌, refl, sym, ap, subst, ◌∙◌, true, Option, none, some, List, [],
  ◌∷◌, ◌++◌, length, arith, Outcome, ok, err,
}
use mathlib.Core.List.{append_assoc, append-nil}
use babyray.Common.Dict.{Dict}
use babyray.Common.Text.{Text, is_cons}
use babyray.ObjTable.AppendFile.{
  Files, IsFiles, line_text, AppendError, end_flush, write_lines, opened,
  write_object_locations_to_aof,
}
use babyray.ObjTable.AppendFile.Reader.{◌>>=◌, read_line, read_lines, read_log}
use babyray.ObjTable.AppendFile.Lines.{read_line-line_text, length-line_text, line_text-is_cons}

-- A line for each entry.
abbrev pub log_text : Dict (List ℕ) → Text
log_text [] = []
log_text ((key, vs) ∷ m) = line_text key vs ++ log_text m

log_text-append : (m n : Dict (List ℕ)) → log_text (m ++ n) ≡ log_text m ++ log_text n
log_text-append [] n = refl
log_text-append ((key, vs) ∷ m) n =
    ap (λ t. line_text key vs ++ t) (log_text-append m n)
    ∙ sym (append_assoc (line_text key vs) (log_text m) (log_text n))

-- The rounds that reading takes.
abbrev rounds_for : Dict (List ℕ) → ℕ
rounds_for [] = 0
rounds_for ((key, vs) ∷ m) = suc (length vs) + rounds_for m

rounds_for-length : (m : Dict (List ℕ)) → rounds_for m ≤ length (log_text m)
rounds_for-length [] = omega arith
rounds_for-length ((key, vs) ∷ m) =
    omega (arith, length-line_text key vs (log_text m), rounds_for-length m)

read_lines_cons :
    (rounds : ℕ) (t : Text)
    → is_cons t ≡ true
    → read_lines (suc rounds) t
      ≡ (read_line rounds t >>= (λ r. read_lines rounds r.1 >>= (λ m. some (r.0 ∷ m))))
unfolding read_lines
read_lines_cons rounds [] h = cc
read_lines_cons rounds (c ∷ cs) h = refl

read_lines-log_text :
    (rounds : ℕ) (m : Dict (List ℕ))
    → rounds_for m < rounds
    → read_lines rounds (log_text m) ≡ some m
unfolding read_lines
read_lines-log_text zero m lt = absurd (omega (arith, lt))
read_lines-log_text (suc rounds) [] lt = refl
read_lines-log_text (suc rounds) ((key, vs) ∷ m) lt =
    read_lines_cons rounds _ (line_text-is_cons key vs (log_text m))
    ∙ ap (λ o. o >>= (λ r. read_lines rounds r.1 >>= (λ n. some (r.0 ∷ n))))
        (read_line-line_text rounds key vs (log_text m) (omega (arith, lt)))
    ∙ ap (λ o. o >>= (λ n. some ((key, vs) ∷ n))) (read_lines-log_text rounds m (omega (arith, lt)))

-- The lines of a map read back as the map.
pub read_log-log_text : (m : Dict (List ℕ)) → read_log (log_text m) ≡ some m
unfolding read_log
read_log-log_text m =
    read_lines-log_text (suc (length (log_text m))) m (omega (arith, rounds_for-length m))

module _ {S E : Type 0} (files : Files S E) (h : IsFiles files) where
  -- With a success the file has grown by these characters.
  abbrev Grows : Text → Text → S × Option (AppendError E) → Type 0
  Grows before text (s', none) = h.contents s' ≡ before ++ text
  Grows before text (s', some e) = Unit

  Grows-append :
      (before line text : Text) (r : S × Option (AppendError E))
      → Grows (before ++ line) text r
      → Grows before (line ++ text) r
  Grows-append before line text (s, none) grows = grows ∙ append_assoc before line text
  Grows-append before line text (s, some e) grows = tt

  end_flush-Grows :
      (before : Text) (r : S × Option E)
      → (r.1 ≡ none → h.contents r.0 ≡ before)
      → Grows before [] (end_flush files r)
  unfolding end_flush
  end_flush-Grows before (s, some e) there = tt
  end_flush-Grows before (s, none) there = h.close_contents s ∙ there refl ∙ sym (append-nil before)

  write_lines-Grows :
      (m : Dict (List ℕ)) (before : Text) (r : S × Option E)
      → (r.1 ≡ none → h.contents r.0 ++ h.pending r.0 ≡ before)
      → Grows before (log_text m) (write_lines files m r)
  unfolding write_lines
  write_lines-Grows m before (s, some e) there = tt
  write_lines-Grows [] before (s, none) there =
      end_flush-Grows before (files.flush s) (λ e. h.flush_contents s e ∙ there refl)
  write_lines-Grows ((key, vs) ∷ m) before (s, none) there =
      let line = line_text key vs in
      Grows-append before line (log_text m) _ (
        write_lines-Grows m (before ++ line) (files.write_string s line)
          (λ e. h.write_contents s line e ∙ ap (λ t. t ++ line) (there refl)))

  opened-Grows :
      (s : S) (name : Text) (m : Dict (List ℕ)) (o : Outcome E S)
      → files.open_append s name ≡ o
      → Grows (h.contents s) (log_text m) (opened files m s o)
  unfolding opened
  opened-Grows s name m (err e) eq = tt
  opened-Grows s name m (ok s') eq =
      let started = h.open_contents s name s' eq in
      write_lines-Grows m (h.contents s) (s', none)
        (λ e. ap (λ t. h.contents s' ++ t) started.1 ∙ append-nil _ ∙ started.0)

  write-Grows :
      (s : S) (name : Text) (m : Dict (List ℕ))
      → Grows (h.contents s) (log_text m) (write_object_locations_to_aof files s name m)
  unfolding write_object_locations_to_aof
  write-Grows s name m = opened-Grows s name m (files.open_append s name) refl

  -- What a write comes to for a file that has the lines of `log`: with a success it has also those of
  -- `m`, and it reads back as the entries of both.
  abbrev pub Appends : Dict (List ℕ) → Dict (List ℕ) → S × Option (AppendError E) → Type 0
  Appends log m (s', none) =
      (h.contents s' ≡ log_text (log ++ m)) × (read_log (h.contents s') ≡ some (log ++ m))
  Appends log m (s', some e) = Unit

  Grows-Appends :
      (log m : Dict (List ℕ)) (r : S × Option (AppendError E))
      → Grows (log_text log) (log_text m) r
      → Appends log m r
  Grows-Appends log m (s', some e) grows = tt
  Grows-Appends log m (s', none) grows =
      let lines = grows ∙ sym (log_text-append log m) in
      (lines, ap read_log lines ∙ read_log-log_text (log ++ m))

  -- A write that succeeds on a file with the lines of earlier writes adds a line for each entry of the
  -- map, in the order of the visit, and the whole file then reads back as the earlier entries and the
  -- map's, each with its nodes in their order.
  pub write_object_locations_to_aof-Appends :
      (s : S) (name : Text) (log m : Dict (List ℕ))
      → h.contents s ≡ log_text log
      → Appends log m (write_object_locations_to_aof files s name m)
  write_object_locations_to_aof-Appends s name log m there = Grows-Appends log m _ (
      subst (λ t. Grows t (log_text m) (write_object_locations_to_aof files s name m)) there
        (write-Grows s name m))
