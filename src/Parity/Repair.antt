-- ===== src/Parity/Repair.antt =====
-- A segment with few errors is restored from its parity.
use mk_db.Base.{
  ℕ, ◌≡◌, ◌≢◌, refl, sym, ◌∙◌, ap, Text, text_key, [], ◌∷◌, ◌++◌, some, true, Dict, get-put, arith,
  length, codes, show_03d,
}
use mk_db.Base.Dicts
use mk_db.Codec.{Bytes}
use mk_db.Log.{segment_name}
use mk_db.Parity.{
  ReedSolo, IsReedSolo, Parity, Site, parity_name, parity_of, repair, repair_with, verify_with,
  verify_segment, verify_and_repair, chunks, chunk_size,
}
use mk_db.Parity.Chunks.{HasFewErrors, AreNear-refl, decode-parity_of}

abbrev pub last_or : ℕ → Text → ℕ
last_or c [] = c
last_or c (d ∷ s) = last_or d s

pub last_or-append : (c : ℕ) (s : Text) (d : ℕ) (t : Text) → last_or c (s ++ d ∷ t) ≡ last_or d t
last_or-append c [] d t = refl
last_or-append c (x ∷ s) d t = last_or-append x s d t

pub log_end : (service : Text) (n : ℕ) → last_or 0 (segment_name service n) ≡ 103
unfolding segment_name
log_end service n =
    last_or-append 0 service b'_' (show_03d n ++ codes ".log")
    ∙ last_or-append b'_' (show_03d n) b'.' (codes "log")

pub parity_end : (service : Text) (n : ℕ) → last_or 0 (parity_name service n) ≡ 121
unfolding parity_name
parity_end service n =
    last_or-append 0 service b'_' (show_03d n ++ codes ".parity")
    ∙ last_or-append b'_' (show_03d n) b'.' (codes "parity")

-- No log file is named like a parity file.
pub segment-ne-parity : (service : Text) (n m : ℕ) → segment_name service n ≢ parity_name service m
segment-ne-parity service n m h =
    let same : 103 ≡ 121 = sym (log_end service n) ∙ (ap (last_or 0) h ∙ parity_end service m) in
    omega (arith, same)

-- The files of a segment whose parity was made of the data, and whose bytes still have few errors.
pub record IsProtected (rs : ReedSolo) (p : Parity) (n : ℕ) (data_ : Bytes)
    (files : Dict Text Bytes) : Type 0 where
  pub received : Bytes
  pub segment : Dicts.get (segment_name p.service n) files ≡ some received
  pub parity : Dicts.get (parity_name p.service n) files ≡ some (parity_of rs p.nsym data_)
  pub near : HasFewErrors p.nsym received data_

repair-restores :
    (now : ℕ) (p : Parity) (n : ℕ) (bytes decoded : Bytes) (s : Site)
    → Dicts.get (segment_name p.service n) s.files ≡ some bytes
    → Dicts.get (segment_name p.service n) (repair now p n bytes decoded s).files ≡ some decoded
unfolding repair
repair-restores now p n bytes decoded s h =
    ground (arith, get-put (segment_name p.service n) (segment_name p.service n) decoded s.files)

repair-other :
    (now : ℕ) (p : Parity) (n : ℕ) (bytes decoded : Bytes) (s : Site) (name : Text)
    → segment_name p.service n ≢ name
    → Dicts.get name (repair now p n bytes decoded s).files ≡ Dicts.get name s.files
unfolding repair
repair-other now p n bytes decoded s name h =
    ground (arith, get-put (segment_name p.service n) name decoded s.files)

verify-run :
    (rs : ReedSolo) (now : ℕ) (p : Parity) (n : ℕ) (data_ : Bytes) (s : Site)
    (h : IsReedSolo rs p.nsym) (k : IsProtected rs p n data_ s.files)
    → verify_and_repair rs now p n s ≡ (true, repair now p n k.received data_ s)
unfolding verify_and_repair verify_segment verify_with repair_with
verify-run rs now p n data_ s h k =
    rw (k.segment, k.parity, decode-parity_of rs p.nsym h k.received data_ k.near) refl

-- What `verify_and_repair` comes to for a segment whose parity was made of the data and whose bytes
-- differ from it, chunk by chunk, in no more places than the code corrects: it returns true, the segment
-- holds the data again, and it stays so protected.
pub verify_and_repair-restores :
    (rs : ReedSolo) (now : ℕ) (p : Parity) (n : ℕ) (data_ : Bytes) (s : Site)
    → IsReedSolo rs p.nsym
    → IsProtected rs p n data_ s.files
    → ((verify_and_repair rs now p n s).0 ≡ true)
      × (Dicts.get (segment_name p.service n) (verify_and_repair rs now p n s).1.files ≡ some data_)
      × IsProtected rs p n data_ (verify_and_repair rs now p n s).1.files
verify_and_repair-restores rs now p n data_ s h k =
    let run = verify-run rs now p n data_ s h k in
    let restored = repair-restores now p n k.received data_ s k.segment in
    rw run (
      refl,
      restored,
      record {
        received = data_;
        segment = restored;
        parity =
            repair-other now p n k.received data_ s (parity_name p.service n)
              (segment-ne-parity p.service n n)
            ∙ k.parity;
        near = AreNear-refl p.nsym (chunks (length data_) (chunk_size p.nsym) data_);
      },
    )
