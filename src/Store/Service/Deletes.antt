-- ===== src/Store/Service/Deletes.antt =====
-- What `delete` of a store leaves in its query indexes, mkdb/db/objects/store.py.
use mk_db.Base.{◌≡◌, refl, ℕ, Text, text_key, none, ok, Key}
use mk_db.Json.{Json}
use mk_db.Codec.{Codec}
use mk_db.Cache
use mk_db.Index
use mk_db.Store.Backend.{invalidate_cache}
use mk_db.Cache.Invariant.{IsValid}
use mk_db.Numeric.{Number}
use mk_db.Disk.{read_storage}
use mk_db.Parity.{ReedSolo}
use mk_db.Store.Reads.{
  get-absent, get-deleted, deleted-IsValid, get-delete_self, read_storage-absent,
}
use mk_db.Store.Service.{Service, delete, delete_behind, forget}

-- `delete` asks the cache for the old values behind `_ram_cache.delete`, so it never has them: in a store
-- with a valid cache it returns, storage has no record under the id any more, and the query indexes are
-- those from before, with the deleted record in them.
pub delete-engine :
    {V : Type 0} ⦃e : Key V⦄ (num : Number V) (c : Codec) (rs : ReedSolo) (lower : Text → Text)
    (text_of : Json → Text) (now later : ℕ) (id : Text) (s : Service V)
    → IsValid s.cache
    → (s' : Service V) × (delete num c rs lower text_of now later id s ≡ ok s')
      × (read_storage c id s'.backend.disk ≡ ok none)
      × (s'.backend.engine ≡ s.backend.engine)
unfolding delete
delete-engine num c rs lower text_of now later id s v =
    let (cache', miss) =
      get-absent now later id (Cache.delete id s.cache) (deleted-IsValid id s.cache v)
        (get-deleted id s.cache) in
    (
      record s {
        cache = cache';
        backend = record s.backend {
          disk = record s.backend.disk { index = Index.delete id s.backend.disk.index };
          dispatcher = invalidate_cache id none s.backend.dispatcher;
        };
      },
      rw miss (unfold delete_behind forget in refl),
      read_storage-absent c id _ (get-delete_self id s.backend.disk.index),
      refl,
    )
