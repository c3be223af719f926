-- ===== src/Parity.antt =====
-- Reed-Solomon parity of the log segments, mkdb/db/parity/parity_manager.py: the class `ParityManager`,
-- over the files of the store's directory and the ring of events. The package `reedsolo`, which is
-- installed here, is a parameter with its documented laws; a temporary file takes the place of the old one
-- in one step.
pub mod Chunks
pub mod Repair
pub mod Boot
use mk_db.Base.{
  ℕ, zero, suc, ◌+◌, ◌-◌, ◌*◌, ◌/◌, ◌≤◌, ◌≡◌, Text, codes, List, [], ◌∷◌, ◌++◌, Option, none, some,
  Bool, true, false, Dict, put, contains, text_key, text_discrete, test, show_03d, length, take,
  drop, ◌==◌, if◌then◌else◌,
}
use mk_db.Base.Dicts
use mk_db.Codec.{Bytes}
use mk_db.Log.{Log, segment_name, list_segments}
use mk_db.EventLog.{Event, emit}

-- `reedsolo.RSCodec(nsym)`: `encode` of one chunk, and the message of `decode`, where `none` is a
-- `ReedSolomonError`.
pub record ReedSolo : Type 0 where
  pub encode : ℕ → Bytes → Bytes
  pub decode : ℕ → Bytes → Option Bytes

-- `codec.nsize - codec.nsym`
abbrev pub chunk_size : ℕ → ℕ
chunk_size nsym = 255 - nsym

-- The places in which two texts of one length differ.
unfoldable pub distance : Bytes → Bytes → ℕ
distance [] bs = 0
distance (a ∷ as_) [] = 0
distance (a ∷ as_) (b ∷ bs) = let rest = distance as_ bs in if a == b then rest else rest + 1

-- The laws of `reedsolo` for a chunk: the code is the chunk and `nsym` symbols, and up to `nsym // 2`
-- wrong bytes of the chunk are corrected.
pub record IsReedSolo (rs : ReedSolo) (nsym : ℕ) : Type 0 where
  pub size : nsym ≤ 254
  pub ecc : Bytes → Bytes
  pub encoded :
      (chunk : Bytes) → length chunk ≤ chunk_size nsym → rs.encode nsym chunk ≡ chunk ++ ecc chunk
  pub symbols : (chunk : Bytes) → length chunk ≤ chunk_size nsym → length (ecc chunk) ≡ nsym
  pub corrects :
      (chunk received : Bytes)
      → length chunk ≤ chunk_size nsym
      → length received ≡ length chunk
      → distance received chunk ≤ nsym / 2
      → rs.decode nsym (received ++ ecc chunk) ≡ some chunk

-- `_parity_path`, within the directory.
unfoldable pub parity_name : Text → ℕ → Text
parity_name service n = service ++ (b'_' ∷ (show_03d n ++ codes ".parity"))

-- The chunks at `range(0, len(data), chunk_size)`; the fuel is the length of the data.
unfoldable pub chunks : ℕ → ℕ → Bytes → List Bytes
chunks zero size data_ = []
chunks (suc n) size [] = []
chunks (suc n) size (b ∷ bs) =
    let rest = chunks n size (drop size (b ∷ bs)) in take size (b ∷ bs) ∷ rest

-- The error-correcting symbols of each chunk, joined.
unfoldable pub ecc_of : ReedSolo → ℕ → List Bytes → Bytes
ecc_of rs nsym [] = []
ecc_of rs nsym (chunk ∷ rest) = drop (length chunk) (rs.encode nsym chunk) ++ ecc_of rs nsym rest

unfoldable pub parity_of : ReedSolo → ℕ → Bytes → Bytes
unfolding chunks ecc_of
parity_of rs nsym bytes = ecc_of rs nsym (chunks (length bytes) (chunk_size nsym) bytes)

-- The manager: the store's name and the number of symbols.
pub record Parity : Type 0 where
  pub service : Text
  pub nsym : ℕ

-- `generate`; a segment that is not there is passed over.
unfoldable pub generate : ReedSolo → Parity → ℕ → Dict Text Bytes → Dict Text Bytes
unfolding parity_of parity_name
generate rs p n files = elim (Dicts.get (segment_name p.service n) files) [
  | none ↦ files
  | some bytes ↦ put (parity_name p.service n) (parity_of rs p.nsym bytes) files
]

-- `repaired.extend(message)` before the messages of the other chunks
abbrev pub join_messages : Option Bytes → Option Bytes → Option Bytes
join_messages none rest = none
join_messages (some message) none = none
join_messages (some message) (some rest) = some (message ++ rest)

-- The chunks decoded, each with its `nsym` symbols of the parity from `offset` on.
unfoldable pub decode_chunks : ReedSolo → ℕ → ℕ → Bytes → List Bytes → Option Bytes
decode_chunks rs nsym offset parity [] = some []
decode_chunks rs nsym offset parity (chunk ∷ rest) =
    join_messages (rs.decode nsym (chunk ++ take nsym (drop offset parity)))
      (decode_chunks rs nsym (offset + nsym) parity rest)

-- What the manager reads and writes.
pub record Site : Type 0 where
  pub files : Dict Text Bytes
  pub events : List Event

-- The events are from `store:{service}`, about a segment.
abbrev emit_about : ℕ → Text → Parity → Text → Site → Site
emit_about now level p message s = record s {
  events = emit now level (codes "store:" ++ p.service) message s.events;
}

-- The segment is rewritten if the decoded bytes are others.
unfoldable pub repair : ℕ → Parity → ℕ → Bytes → Bytes → Site → Site
repair now p n bytes decoded s =
    if test (text_discrete decoded bytes)
    then s
    else record (emit_about now (codes "recovery") p
        (codes "Segment "
          ++ segment_name p.service n
          ++ codes " had corruption — repaired via Reed-Solomon")
        s) { files = put (segment_name p.service n) decoded s.files }

unfoldable pub repair_with : ℕ → Parity → ℕ → Bytes → Option Bytes → Site → Bool × Site
unfolding repair
repair_with now p n bytes none s = (false, s)
repair_with now p n bytes (some decoded) s = (true, repair now p n bytes decoded s)

-- A segment that is there, with its parity or without.
unfoldable pub verify_with : ReedSolo → ℕ → Parity → ℕ → Bytes → Option Bytes → Site → Bool × Site
unfolding repair_with decode_chunks generate chunks
verify_with rs now p n bytes none s = (true, record s { files = generate rs p n s.files })
verify_with rs now p n bytes (some parity) s =
    repair_with now p n bytes
      (decode_chunks rs p.nsym 0 parity (chunks (length bytes) (chunk_size p.nsym) bytes)) s

unfoldable pub verify_segment : ReedSolo → ℕ → Parity → ℕ → Option Bytes → Site → Bool × Site
unfolding verify_with
verify_segment rs now p n none s = (false, s)
verify_segment rs now p n (some bytes) s =
    verify_with rs now p n bytes (Dicts.get (parity_name p.service n) s.files) s

-- `verify_and_repair`
unfoldable pub verify_and_repair : ReedSolo → ℕ → Parity → ℕ → Site → Bool × Site
unfolding verify_segment
verify_and_repair rs now p n s =
    verify_segment rs now p n (Dicts.get (segment_name p.service n) s.files) s

abbrev pub report : ℕ → Parity → ℕ → Bool × Site → Site
report now p n (true, s) = s
report now p n (false, s) =
    emit_about now (codes "error") p
      (codes "Segment " ++ segment_name p.service n ++ codes " is corrupt beyond repair") s

-- A turn of `boot_verify_all`: the active segment gets a new parity, another one is verified.
unfoldable pub boot_verify : ReedSolo → ℕ → Parity → ℕ → ℕ → Site → Site
unfolding generate verify_and_repair
boot_verify rs now p active n s =
    if n == active
    then record s { files = generate rs p n s.files }
    else report now p n (verify_and_repair rs now p n s)

unfoldable pub boot_verify_each : ReedSolo → ℕ → Parity → ℕ → List ℕ → Site → Site
unfolding boot_verify
boot_verify_each rs now p active [] s = s
boot_verify_each rs now p active (n ∷ ns) s =
    boot_verify_each rs now p active ns (boot_verify rs now p active n s)

-- `boot_verify_all`, for the log manager's segments
unfoldable pub boot_verify_all : ReedSolo → ℕ → Parity → Log → List Event → Log × List Event
unfolding boot_verify_each
boot_verify_all rs now p l events =
    let s =
      boot_verify_each rs now p l.active_segment (list_segments l)
        (record { files = l.files; events = events }) in
    (record l { files = s.files }, s.events)
