-- ===== src/ObjTable/AppendFile/Tests.antt =====
-- The append-only file of go/cmd/gcsobjtable/main.go on a plain text with a buffer.
use babyray.Common.{ℕ, ◌≡◌, refl, sym, subst, ok_injective, none, List, [], ◌∷◌, ◌++◌, ok}
use mathlib.Core.List.{append_assoc}
use babyray.Common.Dict.{Dict}
use babyray.Common.Text.{Text, ascii, format_uint}
use babyray.ObjTable.Server.{GcsObjServer, new_gcs_obj_server}
use babyray.ObjTable.AppendFile.Flushing.{Logs, flush_to_aof, flush_to_aof-Logs}
use babyray.ObjTable.AppendFile.{Files, IsFiles, line_text}
use babyray.ObjTable.AppendFile.Log.{log_text}

record Buffered : Type 0 where
  on_disk : Text
  held : Text

abbrev plain_files : Files Buffered ℕ
plain_files = record {
  open_append = λ s name. ok (record s { held = [] });
  write_string = λ s text. (record s { held = s.held ++ text }, none);
  flush = λ s. (record { on_disk = s.on_disk ++ s.held; held = [] }, none);
  close = λ s. s;
}

abbrev plain_files-IsFiles : IsFiles plain_files
plain_files-IsFiles = record {
  contents = λ s. s.on_disk;
  pending = λ s. s.held;
  open_contents = λ s name s' e.
      subst (λ (t : Buffered). (t.on_disk ≡ s.on_disk) × (t.held ≡ [])) (ok_injective _ _ e)
        (refl, refl);
  write_contents = λ s text e. sym (append_assoc s.on_disk s.held text);
  flush_contents = λ s e. refl;
  close_contents = λ s. refl;
}

abbrev earlier : Dict (List ℕ)
earlier = (7, 2 ∷ 13 ∷ []) ∷ []

abbrev later : Dict (List ℕ)
later = (9, []) ∷ (7, 2 ∷ []) ∷ []

abbrev file_before : Buffered
file_before = record { on_disk = log_text earlier; held = [] }

abbrev two_known : GcsObjServer ℕ
two_known = record (new_gcs_obj_server 0) { object_locations = later }

flush_to_aof-Logs_example :
    Logs plain_files plain_files-IsFiles earlier two_known
      (flush_to_aof plain_files two_known file_before)
flush_to_aof-Logs_example =
    flush_to_aof-Logs plain_files plain_files-IsFiles earlier two_known file_before refl

-- A line as text.
line_of_7 : line_text 7 (2 ∷ 13 ∷ []) ≡ ascii "7: [2,13]" ++ 10 ∷ []
unfolding line_text format_uint
line_of_7 = refl
