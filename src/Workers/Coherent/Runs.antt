-- ===== src/Workers/Coherent/Runs.antt =====
-- Runs of the writing process with one worker, as a step relation: mkdb/db/objects/store.py
-- (`_handle_write` and `delete` with `invalidate_cache`) and the turns of the worker's loop.
use mk_db.Base.{
  ℕ, ◌≡◌, Text, text_key, List, [], ◌∷◌, ◌++◌, Option, none, some, false, ok, ltb, length,
}
use mk_db.Base.Dicts
use mk_db.Json.{Fields}
use mk_db.Codec.{Codec, Bytes}
use mk_db.Serializer.{serialize_record}
use mk_db.Log
use mk_db.Index
use mk_db.Index.{Entry}
use mk_db.Disk.{Disk, existing, merge, write_to_storage, entry_of}
use mk_db.Disk.Others.{IsHeld}
use mk_db.Workers.Resolve.{Worker, read_id}
use mk_db.Workers.Loop.{drain}
use mk_db.Workers.Coherent.{Notice, messages, IsCurrent}
use mk_db.Workers.Coherent.Steps.{seen}

-- The storage of the store, the messages that wait for the worker, and the worker.
pub record Pair : Type 0 where
  pub disk : Disk
  pub waiting : List Notice
  pub worker : Worker

unfoldable pub told : Text × ℕ → Option Entry → Disk → Pair → Pair
unfolding seen
told (rest, first) meta d s = record {
  disk = d;
  waiting = s.waiting ++ record { first = first; rest = rest; meta = meta } ∷ [];
  worker = seen d s.worker;
}

-- The step of a write is one of the write queue's worker, `_handle_write`, on a record that merges and
-- whose line is under the blob threshold.
pub data Step (c : Codec) (lossy : Bytes → Text) : Pair → Pair → Type 0 where
  wrote :
      (s : Pair) (first : ℕ) (rest : Text) (delta old full : Fields) (at : Text × ℕ × ℕ) (d : Disk)
      → existing c (first ∷ rest) s.disk ≡ ok old
      → merge s.disk.nested delta old ≡ ok full
      → ltb s.disk.blob_threshold (length (c.encode (serialize_record c (first ∷ rest) full)))
        ≡ false
      → write_to_storage c (first ∷ rest) delta s.disk ≡ ok (at, d)
      → Step c lossy s (told (rest, first) (some (entry_of at)) d s)
  deleted :
      (s : Pair) (first : ℕ) (rest : Text)
      → Step c lossy s (
          told
            (rest, first)
            none
            (record s.disk { index = Index.delete (first ∷ rest) s.disk.index })
            s)
  drained :
      (s : Pair)
      → Step c lossy s (record s { waiting = []; worker = drain (messages s.waiting) s.worker })
  asked :
      (s : Pair) (now later : ℕ) (id : Text)
      → Step c lossy s (record s { worker = (read_id c lossy now later id s.worker).1 })

pub data Reach (c : Codec) (lossy : Bytes → Text) (s : Pair) : Pair → Type 0 where
  here : Reach c lossy s s
  next : {t u : Pair} → Reach c lossy s t → Step c lossy t u → Reach c lossy s u

-- The invariant: the records lie inside their segments, and the worker is current.
abbrev pub IsInStep : Codec → Pair → Type 0
IsInStep c s = IsHeld s.disk × IsCurrent c s.disk s.waiting s.worker

-- A write under the blob threshold, as one change of the index and one of the log.
record Appended (c : Codec) (id : Text) (full : Fields) (s d : Disk) (at : Text × ℕ × ℕ)
    : Type 0 where
  line : Text
  place : entry_of at ≡ entry_of (Log.append c line s.log).0
  same : d ≡ record s {
    index = Index.set id (entry_of (Log.append c line s.log).0) s.index;
    log = (Log.append c line s.log).1;
  }
