-- ===== src/Workers/Coherent/Reads.antt =====
-- What a worker that is current reads.
use mk_db.Base.{
  ℕ, ◌≡◌, refl, sym, ◌∙◌, ap, Text, text_key, text_discrete, List, [], ◌∷◌, Option, none, some,
  false, Dict, ok, raise, ◌>>=◌, arith, ◌⊎◌, inl, inr, Option-cases, ok-injective,
}
use mk_db.Base.Dicts
use mk_db.Base.Result.{Result}
use mk_db.Json.{Fields}
use mk_db.Codec.{Codec, Bytes}
use mk_db.Log
use mk_db.Log.{Log}
use mk_db.Index
use mk_db.Index.{Index, Entry}
use mk_db.Disk.{Disk, read_storage, read_at, record_of}
use mk_db.Store.{with_id}
use mk_db.Workers.LocalCache.{LocalCache}
use mk_db.Workers.LocalCache.Bounds.{IsValid, IsWithin, get_total, set_total, Got, Stored}
use mk_db.Workers.Resolve.{
  Worker, Answered, read_id, answer_cached, read_behind, read_entry, read_line, keep, kept,
  managers_in,
}
use mk_db.Workers.Loop.{note}
use mk_db.Workers.Coherent.{Notice, id_of, noted, mentions, IsCurrent}
use mk_db.Workers.Coherent.Steps.{get-note}

-- A log is read through its service and its files.
read-same :
    (c : Codec) (seg : Text) (offset size : ℕ) (l k : Log)
    → l.service ≡ k.service
    → l.files ≡ k.files
    → Log.read c seg offset size l ≡ Log.read c seg offset size k
unfolding Log.read
read-same c seg offset size l k h e = rw (h, e) refl

-- The record that storage finds behind an entry, as a result.
abbrev found_as : Result Fields → Result (Option Fields)
found_as (raise e) = raise e
found_as (ok d) = ok (some d)

read_at-record :
    (c : Codec) (d : Disk) (e : Entry)
    → read_at c d (some e)
      ≡ found_as (Log.read c e.segment_seq e.offset e.size d.log >>= (λ line. record_of c line))
unfolding read_at
read_at-record c d e =
    elim (Log.read c e.segment_seq e.offset e.size d.log)
      as (λ r.
        (do line ← r; d ← record_of c line; ok (some d))
        ≡ found_as (r >>= (λ line. record_of c line))) [
          | raise x ↦ refl
          | ok line ↦ elim (record_of c line) as (λ r. (do d ← r; ok (some d)) ≡ found_as r) [
            | raise x ↦ refl
            | ok r ↦ refl
          ]
        ]

-- A message for another id leaves the entry alone.
get-noted :
    (j : Text) (ns : List Notice) (m : Dict Text Entry)
    → mentions j ns ≡ false
    → Dicts.get j (noted ns m) ≡ Dicts.get j m
unfolding noted mentions
get-noted j [] m h = refl
get-noted j (n ∷ ns) m h =
    get-noted j ns (note (id_of n) n.meta m) (ground arith)
    ∙ (get-note (id_of n) j n.meta m ∙ ground arith)

-- The answer for what storage finds.
abbrev pub answer_of : Text → Option Fields → Option Fields
answer_of id none = none
answer_of id (some r) = some (with_id id r)

module _ (c : Codec) (lossy : Bytes → Text) (d : Disk) (ns : List Notice) where
  -- The line of an entry is the same for the worker and for the store.
  read_line-storage :
      (e : Entry) (w : Worker) (h : IsCurrent c d ns w)
      → found_as (read_line c lossy (h.index, h.lmgr) e w) ≡ read_at c d (some e)
  unfolding read_line
  read_line-storage e w h =
      ap (λ r. found_as (r >>= (λ line. record_of c line)))
        (read-same c e.segment_seq e.offset e.size (record h.lmgr { files = w.dir.files }) d.log
          h.service h.files)
      ∙ sym (read_at-record c d e)

  -- What a read of the id comes to: only the cache changes, an entry of it was there before or is the
  -- record in the store, and the answer is what storage finds, unless a message for the id waits.
  pub record Asked (id : Text) (w : Worker) (a : Answered (Option Fields)) : Type 0 where
    pub cache' : LocalCache
    pub state : a.1 ≡ record w { cache = cache' }
    pub valid : IsValid cache'
    pub entries :
        (j : Text) (v : Fields)
        → Dicts.get j cache'.entries ≡ some v
        → (Dicts.get j w.cache.entries ≡ some v)
          ⊎ ((id ≡ j)
              × (mentions id ns ≡ false
                  → (r : Fields) × (v ≡ with_id id r) × (read_storage c id d ≡ ok (some r))))
    pub answer :
        (o : Option Fields)
        → mentions id ns ≡ false
        → read_storage c id d ≡ ok o
        → a.0 ≡ ok (answer_of id o)

  unchanged :
      (id : Text) (w : Worker) (x : Result (Option Fields))
      → IsValid w.cache
      → ((o : Option Fields)
          → mentions id ns ≡ false
          → read_storage c id d ≡ ok o
          → x ≡ ok (answer_of id o))
      → Asked id w (x, w)
  unchanged id w x v f = record {
    cache' = w.cache;
    state = refl;
    valid = v;
    entries = λ j u e. inl e;
    answer = f;
  }

  -- What the store finds under the id, as the worker's index leads to it.
  storage_at :
      (id : Text) (w : Worker) (h : IsCurrent c d ns w)
      → mentions id ns ≡ false
      → read_storage c id d ≡ read_at c d (Index.get id h.index)
  unfolding read_storage Index.get
  storage_at id w h quiet =
      ap (λ o. read_at c d o) (sym (sym (get-noted id ns h.index.map quiet) ∙ h.places id))

  keep-Asked :
      (later : ℕ) (id : Text) (e : Entry) (w : Worker) (x : Result Fields)
      → IsValid w.cache
      → (mentions id ns ≡ false → read_storage c id d ≡ found_as x)
      → Asked id w (keep c lossy later id x w)
  unfolding keep kept
  keep-Asked later id e w (raise y) v same =
      unchanged id w (raise y) v (λ o quiet stored. absurd (cc (same quiet)))
  keep-Asked later id e w (ok r) v same =
      let (cache', run, s) = set_total later id (with_id id r) w.cache v in
      rw run (record {
        cache' = cache';
        state = refl;
        valid = s.valid;
        entries = λ j u found. elim (text_discrete id j) [
          | yes here ↦ inr (here, λ quiet. (r, stored_value j u cache' s here found, same quiet))
          | no other ↦ inl (s.others j u other found)
        ];
        answer = λ o quiet stored.
            ap (λ t. ok (answer_of id t)) (ok-injective _ _ (sym (same quiet) ∙ stored));
      })
    where
      stored_value :
          (j : Text) (u : Fields) (cache' : LocalCache)
          → Stored id (with_id id r) w.cache cache'
          → id ≡ j
          → Dicts.get j cache'.entries ≡ some u
          → u ≡ with_id id r
      stored_value j u cache' s here found = let new = s.here in cc

  read_entry-Asked :
      (later : ℕ) (id : Text) (w : Worker) (h : IsCurrent c d ns w)
      → Asked id w (read_entry c lossy later id (h.index, h.lmgr) (Index.get id h.index) w)
  unfolding read_entry
  read_entry-Asked later id w h = elim (Option-cases (Index.get id h.index)) [
    | inl absent ↦ rw absent (
        unchanged id w (ok none) h.valid (λ o quiet stored.
          ap (λ t. ok (answer_of id t))
            (ok-injective none o (
              sym (storage_at id w h quiet ∙ (ap (λ p. read_at c d p) absent ∙ no_entry c d))
              ∙ stored))))
    | inr (e, present) ↦ rw present (
        keep-Asked later id e w (read_line c lossy (h.index, h.lmgr) e w) h.valid (λ quiet.
          storage_at id w h quiet
          ∙ (ap (λ p. read_at c d p) present ∙ sym (read_line-storage e w h))))
  ]
    where
      no_entry : (c : Codec) (d : Disk) → read_at c d none ≡ ok none
      no_entry c d = unfold read_at in refl

  -- The cache may lose entries.
  shrunk-IsCurrent :
      (w : Worker) (cache' : LocalCache)
      → IsValid cache'
      → IsWithin cache' w.cache
      → IsCurrent c d ns w
      → IsCurrent c d ns (record w { cache = cache' })
  shrunk-IsCurrent w cache' v within h = record {
    index = h.index;
    lmgr = h.lmgr;
    opened = h.opened;
    service = h.service;
    files = h.files;
    places = h.places;
    valid = v;
    records = λ j u quiet found. h.records j u quiet (within j u found);
  }

  widened :
      (id : Text) (w : Worker) (cache' : LocalCache) (a : Answered (Option Fields))
      → IsWithin cache' w.cache
      → Asked id (record w { cache = cache' }) a
      → Asked id w a
  widened id w cache' a within k = record {
    cache' = k.cache';
    state = k.state;
    valid = k.valid;
    entries = λ j u found. elim (k.entries j u found) [
      | inl old ↦ inl (within j u old)
      | inr new ↦ inr new
    ];
    answer = k.answer;
  }

  read_behind-run :
      (later : ℕ) (id : Text) (w : Worker) (h : IsCurrent c d ns w)
      → read_behind c lossy later id w
        ≡ read_entry c lossy later id (h.index, h.lmgr) (Index.get id h.index) w
  unfolding read_behind managers_in
  read_behind-run later id w h = rw (h.opened) refl

  -- A worker that is current reads.
  pub read_id-Asked :
      (now later : ℕ) (id : Text) (w : Worker)
      → IsCurrent c d ns w
      → Asked id w (read_id c lossy now later id w)
  unfolding read_id answer_cached
  read_id-Asked now later id w h =
      let (o, cache', run, got) = get_total now id w.cache h.valid in rw run (cached o cache' got)
    where
      cached :
          (o : Option Fields) (cache' : LocalCache)
          → Got id w.cache o cache'
          → Asked id w (answer_cached c lossy later id w (ok (o, cache')))
      cached none cache' got =
          let h' = shrunk-IsCurrent w cache' got.valid got.within h in
          widened id w cache' (read_behind c lossy later id (record w { cache = cache' }))
            got.within
            (rw (read_behind-run later id (record w { cache = cache' }) h')
              (read_entry-Asked later id (record w { cache = cache' }) h'))
      cached (some v) cache' got = record {
        cache' = cache';
        state = refl;
        valid = got.valid;
        entries = λ j u found. inl (got.within j u found);
        answer = λ o quiet stored.
            let (r, e, held) = h.records id v quiet (got.found v refl) in
            ap (λ t. ok (some t)) e
            ∙ ap (λ t. ok (answer_of id t)) (ok-injective (some r) o (sym held ∙ stored));
      }

  -- A worker stays current when it reads.
  pub read_id-IsCurrent :
      (id : Text) (w : Worker) (a : Answered (Option Fields))
      → IsCurrent c d ns w
      → Asked id w a
      → IsCurrent c d ns a.1
  read_id-IsCurrent id w a h k = rw (k.state) (record {
    index = h.index;
    lmgr = h.lmgr;
    opened = h.opened;
    service = h.service;
    files = h.files;
    places = h.places;
    valid = k.valid;
    records = λ j v quiet found. elim (k.entries j v found) [
      | inl old ↦ h.records j v quiet old
      | inr (same, new) ↦ rw same at (new (rw (← same) at quiet))
    ];
  })
