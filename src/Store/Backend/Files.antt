-- ===== src/Store/Backend/Files.antt =====
-- The log files and the parity files of a store: what a write, a blob and `generate` do to those of one
-- segment.
use mk_db.Base.{
  ℕ, ◌+◌, ◌≡◌, ◌≢◌, refl, sym, ◌∙◌, ap, Text, codes, text_key, ℕ_discrete, [], ◌∷◌, ◌++◌, none,
  some, Dict, put, contains, ok, raise, arith, get-put_ne, get-put_self, ltb, leb, length,
  Bool-cases, inl, inr, Option-cases, raise-ne-ok, ok-injective, ◌>>=◌,
}
use mk_db.Base.Dicts
use mk_db.Base.Result.{Result}
use mk_db.Json.{Fields}
use mk_db.Codec.{Codec, Bytes}
use mk_db.Serializer.{serialize_record}
use mk_db.Log
use mk_db.Log.{Log, segment_name, open_append, active_bytes, rollover}
use mk_db.Log.Segments.{segment_name-injective}
use mk_db.Blob.{safe_id, blob_path, write_blob}
use mk_db.Disk.{Disk, existing, merge, place, store_line, write_to_storage}
use mk_db.Parity.{ReedSolo, Parity, generate, parity_of, parity_name}
use mk_db.Parity.Repair.{segment-ne-parity, last_or, last_or-append, log_end, parity_end}
use mk_db.Parity.Boot.{parity_name-injective}

-- A segment that is there has the parity of its bytes.
abbrev IsSealed : ReedSolo → Parity → ℕ → Dict Text Bytes → Type 0
IsSealed rs p n files =
    (bytes : Bytes)
    → Dicts.get (segment_name p.service n) files ≡ some bytes
    → Dicts.get (parity_name p.service n) files ≡ some (parity_of rs p.nsym bytes)

-- So has every segment but the active one.
abbrev pub AreSealed : ReedSolo → Parity → ℕ → Dict Text Bytes → Type 0
AreSealed rs p active files = (n : ℕ) → n ≢ active → IsSealed rs p n files

-- The files of one segment, its log and its parity, are the same.
abbrev pub SameFiles : Text → ℕ → Dict Text Bytes → Dict Text Bytes → Type 0
SameFiles service n files' files =
    (Dicts.get (segment_name service n) files' ≡ Dicts.get (segment_name service n) files)
    × (Dicts.get (parity_name service n) files' ≡ Dicts.get (parity_name service n) files)

pub same-IsSealed :
    (rs : ReedSolo) (p : Parity) (n : ℕ) (files' files : Dict Text Bytes)
    → SameFiles p.service n files' files
    → IsSealed rs p n files
    → IsSealed rs p n files'
same-IsSealed rs p n files' files (log, par) h bytes found = par ∙ h bytes (sym log ∙ found)

pub put_segment-SameFiles :
    (service : Text) (m n : ℕ) (b : Bytes) (files : Dict Text Bytes)
    → m ≢ n
    → SameFiles service n (put (segment_name service m) b files) files
put_segment-SameFiles service m n b files h = (
  get-put_ne (segment_name service m) (segment_name service n) b files
      (λ same. h (segment_name-injective service m n same)),
  get-put_ne (segment_name service m) (parity_name service n) b files
      (segment-ne-parity service m n),
)

put_parity-SameFiles :
    (service : Text) (m n : ℕ) (b : Bytes) (files : Dict Text Bytes)
    → m ≢ n
    → SameFiles service n (put (parity_name service m) b files) files
put_parity-SameFiles service m n b files h = (
  get-put_ne (parity_name service m) (segment_name service n) b files
      (λ same. segment-ne-parity service n m (sym same)),
  get-put_ne (parity_name service m) (parity_name service n) b files
      (λ same. h (parity_name-injective service m n same)),
)

blob_end : (id : Text) → last_or 0 (blob_path id) ≡ 116
unfolding blob_path
blob_end id = last_or_codes (safe_id id)
  where
    last_or_codes : (s : Text) → last_or 0 (codes "blobs/" ++ (s ++ codes ".dat")) ≡ 116
    last_or_codes s = last_or-append b'/' s b'.' (codes "dat")

-- A blob is neither.
put_blob-SameFiles :
    (service id : Text) (n : ℕ) (b : Bytes) (files : Dict Text Bytes)
    → SameFiles service n (put (blob_path id) b files) files
put_blob-SameFiles service id n b files = (
  get-put_ne (blob_path id) (segment_name service n) b files (λ same.
      let e : 116 ≡ 103 = sym (blob_end id) ∙ (ap (last_or 0) same ∙ log_end service n) in
      omega (arith, e)),
  get-put_ne (blob_path id) (parity_name service n) b files (λ same.
      let e : 116 ≡ 121 = sym (blob_end id) ∙ (ap (last_or 0) same ∙ parity_end service n) in
      omega (arith, e)),
)

trans-SameFiles :
    (service : Text) (n : ℕ) (f g h : Dict Text Bytes)
    → SameFiles service n f g
    → SameFiles service n g h
    → SameFiles service n f h
trans-SameFiles service n f g h (a, b) (a', b') = (a ∙ a', b ∙ b')

generate-absent :
    (rs : ReedSolo) (p : Parity) (m : ℕ) (files : Dict Text Bytes)
    → Dicts.get (segment_name p.service m) files ≡ none
    → generate rs p m files ≡ files
unfolding generate
generate-absent rs p m files h = rw (h, generate) refl

generate-present :
    (rs : ReedSolo) (p : Parity) (m : ℕ) (b : Bytes) (files : Dict Text Bytes)
    → Dicts.get (segment_name p.service m) files ≡ some b
    → generate rs p m files ≡ put (parity_name p.service m) (parity_of rs p.nsym b) files
unfolding generate
generate-present rs p m b files h = rw (h, generate) refl

-- `generate` of a segment seals it and leaves the others.
generate-IsSealed :
    (rs : ReedSolo) (p : Parity) (m : ℕ) (files : Dict Text Bytes)
    → IsSealed rs p m (generate rs p m files)
generate-IsSealed rs p m files bytes found =
    elim (Option-cases (Dicts.get (segment_name p.service m) files)) [
      | inl gone ↦ let same = generate-absent rs p m files gone in absurd (cc (rw same at found))
      | inr (b, there) ↦
          let same = generate-present rs p m b files there in
          let left =
            get-put_ne (parity_name p.service m) (segment_name p.service m) (parity_of rs p.nsym b)
              files (λ e. segment-ne-parity p.service m m (sym e)) in
          let one : b ≡ bytes = some_cancel (sym there ∙ (sym left ∙ rw same at found)) in
          ap (λ f. Dicts.get (parity_name p.service m) f) same
          ∙ (get-put_self (parity_name p.service m) (parity_of rs p.nsym b) files
              ∙ ap (λ x. some (parity_of rs p.nsym x)) one)
    ]
  where
    some_cancel : {b bytes : Bytes} → some b ≡ some bytes → b ≡ bytes
    some_cancel h = cc

generate-SameFiles :
    (rs : ReedSolo) (p : Parity) (m n : ℕ) (files : Dict Text Bytes)
    → m ≢ n
    → SameFiles p.service n (generate rs p m files) files
unfolding generate
generate-SameFiles rs p m n files h =
    elim (Dicts.get (segment_name p.service m) files)
      as (λ o.
        SameFiles p.service n
          (elim o [
            | none ↦ files
            | some bytes ↦ put (parity_name p.service m) (parity_of rs p.nsym bytes) files
          ])
          files) [
            | none ↦ (refl, refl)
            | some bytes ↦ put_parity-SameFiles p.service m n (parity_of rs p.nsym bytes) files h
          ]

-- All are sealed but the active one, after a parity for one that need not have been.
pub generate-AreSealed :
    (rs : ReedSolo) (p : Parity) (m active : ℕ) (files : Dict Text Bytes)
    → ((n : ℕ) → n ≢ active → m ≢ n → IsSealed rs p n files)
    → AreSealed rs p active (generate rs p m files)
generate-AreSealed rs p m active files h n other = elim (ℕ_discrete m n) [
  | yes here ↦ rw (← here) (generate-IsSealed rs p m files)
  | no differ ↦
      same-IsSealed rs p n (generate rs p m files) files (generate-SameFiles rs p m n files differ)
        (h n other differ)
]

-- `append` touches the active segment, and the next one where it rolls over.
open_append-SameFiles :
    (service : Text) (m n : ℕ) (files : Dict Text Bytes)
    → m ≢ n
    → SameFiles service n (open_append (segment_name service m) files) files
unfolding open_append
open_append-SameFiles service m n files h =
    elim (Bool-cases (contains (segment_name service m) files)) [
      | inl there ↦ rw there (refl, refl)
      | inr new ↦ rw new (put_segment-SameFiles service m n [] files h)
    ]

-- The log and the place of a line after `place`: the same service, and the same files for a segment
-- that is neither the old active one nor the new one.
pub record Placed (l' l : Log) : Type 0 where
  pub service : l'.service ≡ l.service
  pub others :
      (n : ℕ)
      → l.active_segment ≢ n
      → l'.active_segment ≢ n
      → SameFiles l.service n l'.files l.files

roll_if_full-Placed : (l : Log) → Placed (Log.roll_if_full l) l
unfolding Log.roll_if_full rollover
roll_if_full-Placed l = elim (Bool-cases (leb l.segment_threshold (length (active_bytes l)))) [
  | inr room ↦ rw room (record { service = refl; others = λ n old new. (refl, refl) })
  | inl full ↦ rw full (record {
    service = refl;
    others = λ n old new. open_append-SameFiles l.service (l.active_segment + 1) n l.files new;
  })
]

append-Placed : (c : Codec) (line : Text) (l : Log) → Placed (Log.append c line l).1 l
unfolding Log.append
append-Placed c line l =
    let bytes = active_bytes l ++ c.encode (line ++ (10 ∷ [])) in
    let w : Log = record l {
      files = put (segment_name l.service l.active_segment) bytes l.files;
    } in
    let rolled = roll_if_full-Placed w in
    record {
      service = rolled.service;
      others = λ n old new.
          trans-SameFiles l.service n (Log.roll_if_full w).files w.files l.files
            (rolled.others n old new)
            (put_segment-SameFiles l.service l.active_segment n bytes l.files old);
    }

place-Placed : (c : Codec) (id line : Text) (s : Disk) → Placed (place c id line s).1 s.log
unfolding place write_blob
place-Placed c id line s = elim (Bool-cases (ltb s.blob_threshold (length (c.encode line)))) [
  | inl large ↦ rw large (record {
    service = refl;
    others = λ n old new. put_blob-SameFiles s.log.service id n (c.encode line) s.log.files;
  })
  | inr small ↦ rw small (append-Placed c line s.log)
]

store_line-Placed :
    (c : Codec) (id line : Text) (s : Disk) → Placed (store_line c id line s).1.log s.log
unfolding store_line
store_line-Placed c id line s = place-Placed c id line s

-- A write that does not raise places one line.
pub write-Placed :
    (c : Codec) (id : Text) (delta : Fields) (s : Disk) (r : (Text × ℕ × ℕ) × Disk)
    → write_to_storage c id delta s ≡ ok r
    → Placed r.1.log s.log
unfolding write_to_storage
write-Placed c id delta s r h = from_old (existing c id s) h
  where
    from_full :
        (x : Result Fields)
        → (do full ← x; ok (store_line c id (serialize_record c id full) s)) ≡ ok r
        → Placed r.1.log s.log
    from_full (raise x) e = absurd (raise-ne-ok x r e)
    from_full (ok full) e =
        rw (← ok-injective (store_line c id (serialize_record c id full) s) r e)
          (store_line-Placed c id (serialize_record c id full) s)

    from_old :
        (x : Result Fields)
        → (do
          old ← x
          full ← merge s.nested delta old
          ok (store_line c id (serialize_record c id full) s))
          ≡ ok r
        → Placed r.1.log s.log
    from_old (raise x) e = absurd (raise-ne-ok x r e)
    from_old (ok old) e = from_full (merge s.nested delta old) e
