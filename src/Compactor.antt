-- ===== src/Compactor.antt =====
-- Compaction of one segment, mkdb/db/maintenance/compactor.py: the class `Compactor`. Sizes of files
-- in text mode are those of their bytes.
pub mod Copies
pub mod Keeps
use mk_db.Base.{
  ℕ, ◌+◌, ◌-◌, ◌*◌, Text, List, [], ◌∷◌, ◌++◌, Option, none, some, Bool, true, false, Dict, put,
  text_key, text_discrete, show_03d, ltb, ◌==◌, if◌then◌else◌, length, ok, raise, ite,
}
use mk_db.Base.Dicts
use mk_db.Base.Result.{Result}
use mk_db.Codec.{Codec, Bytes}
use mk_db.Log
use mk_db.Log.{Log, segment_name}
use mk_db.Index
use mk_db.Index.{Index, Entry}
use mk_db.Disk.{Disk}

-- `compute_logical_size`
unfoldable logical_size : Text → Dict Text Entry → ℕ
logical_size seq [] = 0
logical_size seq ((id, e) ∷ m) =
    let rest = logical_size seq m in ite (text_discrete e.segment_seq seq) (e.size + rest) rest

-- `needs_compaction` with the threshold `num / den`: (physical - logical) / physical > num / den. A
-- logical size above the physical one gives a negative ratio in the code, and 0 here: no threshold
-- is below either.
unfoldable pub needs_compaction : ℕ → ℕ → ℕ → Disk → Bool
unfolding logical_size
needs_compaction num den n s = elim (Dicts.get (segment_name s.log.service n) s.log.files) [
  | none ↦ false
  | some bytes ↦
      if length bytes == 0
      then false
      else ltb (num * length bytes) ((length bytes - logical_size (show_03d n) s.index.map) * den)
]

-- The new segment as far as it is written, and the new places of its records.
pub record Copy : Type 0 where
  pub out : Bytes
  pub new_offsets : Dict Text Entry

unfoldable pub write_copy : Codec → Text → Text → Text → Copy → Copy
write_copy c seq id line w =
    let encoded = c.encode (line ++ (10 ∷ [])) in
    record {
      out = w.out ++ encoded;
      new_offsets =
          put id (record { segment_seq = seq; offset = length w.out; size = length encoded })
            w.new_offsets;
    }

-- The line of an entry, if there is an entry and its line can be read.
unfoldable pub line_of : Codec → Log → Option Entry → Option Text
line_of c l none = none
line_of c l (some e) = elim (Log.read c e.segment_seq e.offset e.size l) [
  | raise _ ↦ none
  | ok line ↦ some line
]

-- The loop over the ids; a record that cannot be read is skipped.
unfoldable pub copy_each : Codec → Text → Disk → List Text → Copy → Copy
copy_each c seq s [] w = w
copy_each c seq s (id ∷ ids) w = elim (line_of c s.log (Index.get id s.index)) [
  | none ↦ copy_each c seq s ids w
  | some line ↦ copy_each c seq s ids (write_copy c seq id line w)
]

-- The entries of `new_offsets` over those of the map.
unfoldable pub move_entries : Dict Text Entry → Dict Text Entry → Dict Text Entry
move_entries [] m = m
move_entries ((id, e) ∷ moved) m = move_entries moved (put id e m)

-- The copy in place of the segment, and the index that leads into it.
unfoldable pub swap_in : ℕ → Copy → Disk → Disk
swap_in n w s = record s {
  index = Index.save_full (record s.index { map = move_entries w.new_offsets s.index.map });
  log = record s.log { files = put (segment_name s.log.service n) w.out s.log.files };
}

-- A segment without records is left as it is.
unfoldable pub compact_ids : Codec → ℕ → List Text → Disk → Disk
compact_ids c n [] s = s
compact_ids c n (id ∷ ids) s =
    swap_in n (copy_each c (show_03d n) s (id ∷ ids) (record { out = []; new_offsets = [] })) s

-- `compact_segment`
unfoldable pub compact_segment : Codec → ℕ → Disk → Disk
compact_segment c n s =
    if n == s.log.active_segment
    then s
    else compact_ids c n (Index.records_in_segment (show_03d n) s.index) s
