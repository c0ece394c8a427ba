-- ===== src/ObjTable/AppendFile.antt =====
-- `WriteObjectLocationsToAOF` of go/cmd/gcsobjtable/main.go: the object locations as lines of an
-- append-only file. The file and its buffered writer are a parameter. flushToDisk calls it only if its
-- constant `flush_to_AOF` is true.
pub mod Reader
pub mod Lines
pub mod Log
pub mod Flushing
mod Tests
use babyray.Common.{
  ℕ, suc, ◌+◌, ◌≡◌, Option, none, some, List, [], ◌∷◌, ◌++◌, Outcome, ok, err, ltb, if◌then◌else◌,
}
use babyray.Common.Dict.{Dict}
use babyray.Common.Text.{Text, ascii, format_uint}

-- Files of the system with a writer over one of them, in a state `S`.
pub record Files (S E : Type 0) : Type 0 where
  -- os.OpenFile(filename, os.O_APPEND|os.O_CREATE|os.O_WRONLY, 0644) and bufio.NewWriter
  pub open_append : S → Text → Outcome E S
  -- writer.WriteString
  pub write_string : S → Text → S × Option E
  -- writer.Flush
  pub flush : S → S × Option E
  -- file.Close, whose error is dropped
  pub close : S → S

-- What the system documents of them: `contents` is the file's text, and `pending` what the writer
-- holds back.
pub record IsFiles {S E : Type 0} (files : Files S E) : Type 0 where
  pub contents : S → Text
  pub pending : S → Text
  pub open_contents :
      (s : S) (name : Text) (s' : S)
      → files.open_append s name ≡ ok s'
      → (contents s' ≡ contents s) × (pending s' ≡ [])
  pub write_contents :
      (s : S) (text : Text)
      → (files.write_string s text).1 ≡ none
      → contents (files.write_string s text).0 ++ pending (files.write_string s text).0
        ≡ (contents s ++ pending s) ++ text
  pub flush_contents :
      (s : S) → (files.flush s).1 ≡ none → contents (files.flush s).0 ≡ contents s ++ pending s
  pub close_contents : (s : S) → contents (files.close s) ≡ contents s

pub data AppendError (E : Type 0) : Type 0 where
  opening : E → AppendError E
  writing : E → AppendError E
  flushing : E → AppendError E

-- `valuesStr`, from the value at index `i` on.
pub join_values : (i : ℕ) → Text → List ℕ → Text
join_values i str [] = str
join_values i str (v ∷ vs) =
    join_values (suc i) ((if ltb 0 i then str ++ ascii "," else str) ++ format_uint v) vs

-- fmt.Sprintf("%s: [%s]\n", keyStr, valuesStr); a line feed is character 10.
unfoldable pub line_text : ℕ → List ℕ → Text
unfolding join_values
line_text key values =
    format_uint key ++ (ascii ": [" ++ (join_values 0 [] values ++ (ascii "]" ++ (10 ∷ []))))

module _ {S E : Type 0} (files : Files S E) where
  end_flush : S × Option E → S × Option (AppendError E)
  end_flush (s, none) = (files.close s, none)
  end_flush (s, some e) = (files.close s, some (flushing e))

  -- The loop over the map, with the result of the last write.
  write_lines : Dict (List ℕ) → S × Option E → S × Option (AppendError E)
  unfolding end_flush
  write_lines m (s, some e) = (files.close s, some (writing e))
  write_lines [] (s, none) = end_flush (files.flush s)
  write_lines ((key, values) ∷ m) (s, none) =
      write_lines m (files.write_string s (line_text key values))

  opened : Dict (List ℕ) → S → Outcome E S → S × Option (AppendError E)
  unfolding write_lines
  opened m s (err e) = (s, some (opening e))
  opened m s (ok s') = write_lines m (s', none)

  -- `WriteObjectLocationsToAOF`
  unfoldable pub write_object_locations_to_aof :
      S → Text → Dict (List ℕ) → S × Option (AppendError E)
  unfolding opened
  write_object_locations_to_aof s filename m = opened m s (files.open_append s filename)
