-- ===== src/Workers/Coherent/Steps.antt =====
-- The steps of the writing process and of the worker's loop keep the worker current.
use mk_db.Base.{
  ◌≡◌, ◌≢◌, refl, sym, ◌∙◌, ap, Text, text_key, text_discrete, List, [], ◌∷◌, ◌++◌, Option, none,
  some, false, Dict, arith, get-put, get-remove, ite,
}
use mk_db.Base.Dicts
use mk_db.Codec.{Codec}
use mk_db.Index.{Entry}
use mk_db.Disk.{Disk, read_storage}
use mk_db.Workers.LocalCache
use mk_db.Workers.LocalCache.{LocalCache}
use mk_db.Workers.LocalCache.Bounds.{evict_one-IsValid}
use mk_db.Workers.Resolve.{Worker}
use mk_db.Workers.Loop.{notice, note, note_index, note_managers, drain, handle_message, invalidate}
use mk_db.Workers.Coherent.{Notice, id_of, messages, noted, mentions, IsCurrent}

pub get-note :
    (id j : Text) (meta : Option Entry) (m : Dict Text Entry)
    → Dicts.get j (note id meta m) ≡ ite (text_discrete id j) meta (Dicts.get j m)
unfolding note
get-note id j none m = get-remove id j m
get-note id j (some e) m = get-put id j e m

noted-snoc :
    (ns : List Notice) (n : Notice) (m : Dict Text Entry)
    → noted (ns ++ n ∷ []) m ≡ note (id_of n) n.meta (noted ns m)
unfolding noted
noted-snoc [] n m = refl
noted-snoc (k ∷ ns) n m = noted-snoc ns n (note (id_of k) k.meta m)

mentions-snoc :
    (j : Text) (ns : List Notice) (n : Notice)
    → mentions j (ns ++ n ∷ []) ≡ false
    → (mentions j ns ≡ false) × (id_of n ≢ j)
unfolding mentions
mentions-snoc j [] n h = ground arith
mentions-snoc j (k ∷ ns) n h = ground (arith, mentions-snoc j ns n)

-- A message that is handled.
handle_message-IsCurrent :
    (c : Codec) (d : Disk) (n : Notice) (ns : List Notice) (w : Worker)
    → IsCurrent c d (n ∷ ns) w
    → IsCurrent c d ns (handle_message (notice (some (id_of n)) n.meta) w)
unfolding handle_message invalidate note_managers note_index noted mentions LocalCache.evict_one
handle_message-IsCurrent c d n ns w h = record {
  index = record h.index { map = note (id_of n) n.meta h.index.map };
  lmgr = h.lmgr;
  opened = rw (h.opened) refl;
  service = h.service;
  files = h.files;
  places = h.places;
  valid = unfold LocalCache.evict_one in evict_one-IsValid (id_of n) w.cache h.valid;
  records = λ j v quiet found.
      let other : id_of n ≢ j = ground (arith, get-remove (id_of n) j w.cache.entries) in
      h.records j v (ground arith) (ground (arith, get-remove (id_of n) j w.cache.entries));
}

pub drain-IsCurrent :
    (c : Codec) (d : Disk) (ns : List Notice) (w : Worker)
    → IsCurrent c d ns w
    → IsCurrent c d [] (drain (messages ns) w)
unfolding drain
drain-IsCurrent c d [] w h = h
drain-IsCurrent c d (n ∷ ns) w h =
    drain-IsCurrent c d ns (handle_message (notice (some (id_of n)) n.meta) w)
      (handle_message-IsCurrent c d n ns w h)

-- The store after a change of one record, with a message about it: the worker sees the new files.
unfoldable pub seen : Disk → Worker → Worker
seen d w = record w { dir = record w.dir { index_file = d.index.file; files = d.log.files } }

-- A change of the record of one id, of which the worker is told.
pub changed-IsCurrent :
    (c : Codec) (d d' : Disk) (ns : List Notice) (n : Notice) (w : Worker)
    → d'.log.service ≡ d.log.service
    → ((j : Text)
        → Dicts.get j d'.index.map
          ≡ ite (text_discrete (id_of n) j) n.meta (Dicts.get j d.index.map))
    → ((j : Text) → id_of n ≢ j → read_storage c j d' ≡ read_storage c j d)
    → IsCurrent c d ns w
    → IsCurrent c d' (ns ++ n ∷ []) (seen d' w)
unfolding seen
changed-IsCurrent c d d' ns n w service places same h = record {
  index = h.index;
  lmgr = h.lmgr;
  opened = h.opened;
  service = h.service ∙ sym service;
  files = refl;
  places = λ j.
      ap (λ m. Dicts.get j m) (noted-snoc ns n h.index.map)
      ∙ (get-note (id_of n) j n.meta (noted ns h.index.map)
          ∙ (ap (λ o. ite (text_discrete (id_of n) j) n.meta o) (h.places j) ∙ sym (places j)));
  valid = h.valid;
  records = λ j v quiet found.
      let (quiet', other) = mentions-snoc j ns n quiet in
      let (r, e, stored) = h.records j v quiet' found in (r, e, same j other ∙ stored);
}
