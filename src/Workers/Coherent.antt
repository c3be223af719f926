-- ===== src/Workers/Coherent.antt =====
-- A query worker and the process that writes: the invalidations that store.py broadcasts keep what the
-- worker knows in step with the store.
pub mod Steps
pub mod Reads
pub mod Runs
use mk_db.Base.{
  ℕ, ◌≡◌, ◌≢◌, refl, sym, ◌∙◌, Text, text_key, text_discrete, List, [], ◌∷◌, ◌++◌, Option, none,
  some, Bool, true, false, Dict, put, remove, ok, arith, get-put, get-remove, test, ite, ◌||◌,
}
use mk_db.Base.Dicts
use mk_db.Json.{Fields}
use mk_db.Codec.{Codec}
use mk_db.Log.{Log}
use mk_db.Index.{Index, Entry}
use mk_db.Disk.{Disk, read_storage}
use mk_db.Disk.Others.{IsHeld}
use mk_db.Store.{with_id}
use mk_db.Workers.LocalCache
use mk_db.Workers.LocalCache.{LocalCache}
use mk_db.Workers.LocalCache.Bounds.{IsValid, IsWithin, evict_one-IsValid}
use mk_db.Workers.Resolve.{Worker}
use mk_db.Workers.Loop.{Message, notice, note, drain, handle_message, invalidate}

-- A message as `store.invalidate_cache` sends it, for an id that is not empty.
pub record Notice : Type 0 where
  pub first : ℕ
  pub rest : Text
  pub meta : Option Entry

abbrev pub id_of : Notice → Text
id_of n = n.first ∷ n.rest

abbrev pub messages : List Notice → List Message
messages [] = []
messages (n ∷ ns) = notice (some (id_of n)) n.meta ∷ messages ns

-- The index of a worker after the messages.
unfoldable pub noted : List Notice → Dict Text Entry → Dict Text Entry
unfolding note
noted [] m = m
noted (n ∷ ns) m = noted ns (note (id_of n) n.meta m)

-- A message for the id is among them.
unfoldable pub mentions : Text → List Notice → Bool
mentions j [] = false
mentions j (n ∷ ns) = test (text_discrete (id_of n) j) || mentions j ns

-- With the messages that still wait, the worker knows where each record is, and a cached record for
-- which no message waits is the one in the store.
pub record IsCurrent (c : Codec) (d : Disk) (ns : List Notice) (w : Worker) : Type 0 where
  pub index : Index
  pub lmgr : Log
  pub opened : w.managers ≡ some (index, lmgr)
  pub service : lmgr.service ≡ d.log.service
  pub files : w.dir.files ≡ d.log.files
  pub places : (j : Text) → Dicts.get j (noted ns index.map) ≡ Dicts.get j d.index.map
  pub valid : IsValid w.cache
  pub records :
      (j : Text) (v : Fields)
      → mentions j ns ≡ false
      → Dicts.get j w.cache.entries ≡ some v
      → (r : Fields) × (v ≡ with_id j r) × (read_storage c j d ≡ ok (some r))
