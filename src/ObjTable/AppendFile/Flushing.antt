-- ===== src/ObjTable/AppendFile/Flushing.antt =====
-- flushToDisk of go/cmd/gcsobjtable/main.go as it is when its constant `flush_to_AOF` is true.
use babyray.Common.{ℕ, ◌≡◌, refl, Option, none, some, List, [], ◌++◌}
use babyray.Common.Dict.{Dict}
use babyray.Common.Text.{ascii}
use babyray.ObjTable.Server.{GcsObjServer}
use babyray.ObjTable.AppendFile.{Files, IsFiles, AppendError, write_object_locations_to_aof}
use babyray.ObjTable.AppendFile.Reader.{read_log}
use babyray.ObjTable.AppendFile.Log.{log_text, Appends, write_object_locations_to_aof-Appends}

module _ {S E D : Type 0} (files : Files S E) where
  logged : GcsObjServer D → S × Option (AppendError E) → GcsObjServer D × S × Option (AppendError E)
  logged s (fs, some e) = (s, fs, some e)
  logged s (fs, none) = (record s { object_locations = [] }, fs, none)

  unfoldable pub flush_to_aof : GcsObjServer D → S → GcsObjServer D × S × Option (AppendError E)
  unfolding logged
  flush_to_aof s fs =
      logged s (write_object_locations_to_aof files fs (ascii "./aof.txt") s.object_locations)

module _ {S E D : Type 0} (files : Files S E) (h : IsFiles files) where
  -- A flush on a file with the lines of `log`: with a success no location is left in memory, and the
  -- file reads back as the entries of `log` and those that memory had; on an error memory is the same.
  abbrev pub Logs :
      Dict (List ℕ) → GcsObjServer D → GcsObjServer D × S × Option (AppendError E) → Type 0
  Logs log s (s', fs, none) =
      (s' ≡ record s { object_locations = [] })
      × (h.contents fs ≡ log_text (log ++ s.object_locations))
      × (read_log (h.contents fs) ≡ some (log ++ s.object_locations))
  Logs log s (s', fs, some e) = s' ≡ s

  logged-Logs :
      (log : Dict (List ℕ)) (s : GcsObjServer D) (r : S × Option (AppendError E))
      → Appends files h log s.object_locations r
      → Logs log s (logged files s r)
  unfolding logged
  logged-Logs log s (fs, some e) appended = refl
  logged-Logs log s (fs, none) appended = (refl, appended.0, appended.1)

  -- A flush to the append-only file, on a file with the lines of earlier flushes: if it succeeds no
  -- location is left in memory, the file has another line for each object that memory had, and it
  -- reads back as the earlier entries and memory's, each with its nodes in their order. If it fails,
  -- memory is as it was.
  pub flush_to_aof-Logs :
      (log : Dict (List ℕ)) (s : GcsObjServer D) (fs : S)
      → h.contents fs ≡ log_text log
      → Logs log s (flush_to_aof files s fs)
  unfolding flush_to_aof
  flush_to_aof-Logs log s fs there = logged-Logs log s _ (
      write_object_locations_to_aof-Appends files h fs (ascii "./aof.txt") log s.object_locations
        there)
