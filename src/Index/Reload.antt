-- ===== src/Index/Reload.antt =====
-- Any run of index operations leaves a file that `load` turns back into the map.
use mathlib.Core.List.{append_assoc, append-nil}
use mk_db.Base.{
  ◌≡◌, refl, ◌∙◌, ap, Text, List, [], ◌∷◌, ◌++◌, none, false, Dict, text_key, ok, arith, IsLine,
  All, unlines, lines-unlines, HasDistinctKeys, put-absent, get-append,
}
use mk_db.Base.Dicts
use mk_db.Index
use mk_db.Index.{Entry, Index, entry_line, entry_lines, load, load_lines}
use mk_db.Index.Format.{IsPlainId, IsPlainSegment}
use mk_db.Index.Replay.{load-entry_line, IsLine-entry_line}
use mk_db.Index.Durable.{ArePlain, IsDurable, file_text, set-IsDurable, delete-IsDurable}

get-of_distinct :
    (acc : Dict Text Entry) (id : Text) (e : Entry) (m : Dict Text Entry)
    → HasDistinctKeys (acc ++ ((id, e) ∷ m))
    → Dicts.get id acc ≡ none
unfolding Dicts.get
get-of_distinct [] id e m d = refl
get-of_distinct ((j, f) ∷ acc) id e m d =
    ground (arith, get-of_distinct acc id e m d.1, get-append j acc ((id, e) ∷ m))

-- The lines of `save_full`, read into a map that has none of their ids.
load-entry_lines :
    (m acc : Dict Text Entry)
    → ArePlain m
    → HasDistinctKeys (acc ++ m)
    → load_lines (entry_lines m) acc ≡ ok (acc ++ m)
unfolding entry_lines load_lines
load-entry_lines [] acc p d = simp append-nil
load-entry_lines ((id, e) ∷ m) acc p d =
    let new : Dicts.get id acc ≡ none = get-of_distinct acc id e m d in
    let one : (acc ++ ((id, e) ∷ [])) ++ m ≡ acc ++ ((id, e) ∷ m) =
      append_assoc acc ((id, e) ∷ []) m in
    rw (load-entry_line id e acc p.0 p.1, put-absent id e acc new)
      (load-entry_lines m (acc ++ ((id, e) ∷ [])) p.2 (rw one d) ∙ ap ok one)

entry_lines-IsLine : (m : Dict Text Entry) → ArePlain m → All IsLine (entry_lines m)
unfolding entry_lines
entry_lines-IsLine [] p = tt
entry_lines-IsLine ((id, e) ∷ m) p = (IsLine-entry_line id e p.0 p.1, entry_lines-IsLine m p.2)

save_full-IsDurable : (s : Index) → IsDurable s → IsDurable (Index.save_full s)
unfolding Index.save_full
save_full-IsDurable s d = record {
  written = entry_lines s.map;
  text = refl;
  each = entry_lines-IsLine s.map d.plain;
  loads = load-entry_lines s.map [] d.plain d.distinct;
  distinct = d.distinct;
  plain = d.plain;
}

load-of_durable : (s : Index) → IsDurable s → load (file_text s.file) ≡ ok s.map
unfolding load
load-of_durable s d = rw (d.text, lines-unlines d.written d.each) d.loads

-- The calls that write the index file.
pub data Op : Type 0 where
  set : Text → Entry → Op
  delete : Text → Op
  save : Op

abbrev pub step : Op → Index → Index
step (set id e) s = Index.set id e s
step (delete id) s = Index.delete id s
step save s = Index.save_full s

abbrev pub run : List Op → Index → Index
run [] s = s
run (o ∷ ops) s = run ops (step o s)

-- The ids and segments that the calls write can stand in the file.
abbrev IsPlainOp : Op → Type 0
IsPlainOp (set id e) = IsPlainId id × IsPlainSegment e.segment_seq
IsPlainOp _ = Unit {0}

-- An index with no file and no log to rebuild it from.
abbrev pub empty : Index
empty = record { map = []; dirty = false; file = none }

empty-IsDurable : IsDurable empty
empty-IsDurable = record {
  written = [];
  text = unfold unlines in refl;
  each = tt;
  loads = unfold load_lines in refl;
  distinct = tt;
  plain = tt;
}

step-IsDurable : (o : Op) (s : Index) → IsPlainOp o → IsDurable s → IsDurable (step o s)
step-IsDurable (set id e) s p d = set-IsDurable id e s d p.0 p.1
step-IsDurable (delete id) s p d = delete-IsDurable id s d
step-IsDurable save s p d = save_full-IsDurable s d

run-IsDurable :
    (ops : List Op) (s : Index) → All IsPlainOp ops → IsDurable s → IsDurable (run ops s)
run-IsDurable [] s p d = d
run-IsDurable (o ∷ ops) s p d = run-IsDurable ops (step o s) p.1 (step-IsDurable o s p.0 d)

-- From an empty index, whatever is set, deleted and saved, in any order, `load` of the file raises
-- nothing and gives back the map, its order included, provided that no id holds ":" or an end of a
-- line, starts with a space or "!", and no segment holds ":" or an end of a line.
pub load-run :
    (ops : List Op)
    → All IsPlainOp ops
    → load (file_text (run ops empty).file) ≡ ok (run ops empty).map
load-run ops p = load-of_durable (run ops empty) (run-IsDurable ops empty p empty-IsDurable)
