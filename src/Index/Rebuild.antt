-- ===== src/Index/Rebuild.antt =====
-- The index rebuilt from a log file after a line was appended, mkdb/db/storage/index_manager.py:
-- `_bootstrap_from_logs`.
use mk_db.Base.{
  ℕ, ◌+◌, ◌≡◌, refl, sym, ◌∙◌, ap, Text, text_key, List, [], ◌∷◌, ◌++◌, some, false, Dict, put,
  length, arith, ◌==◌, show_03d, has_char, is_space, strip, lstrip, rstrip, cons_unless_last_space,
  Bool-cases, inl, inr,
}
use mk_db.Json.{Fields}
use mk_db.Codec.{Codec, Bytes, IsJson}
use mk_db.Serializer.{serialize_record, deserialize_record, parse_cut, cut_at_space}
use mk_db.Serializer.RoundTrip.{IsLineId, deserialize-serialize}
use mk_db.Log
use mk_db.Log.{Log, active_bytes}
use mk_db.Disk.{entry_of}
use mk_db.Index.{Entry}
use mk_db.Index.Bootstrap.{byte_lines, add_byte, cons_first, index_line, index_lines}

-- Each line of the file ends with "\n".
abbrev pub EndsLine : Bytes → Type 0
EndsLine [] = Unit {0}
EndsLine (b ∷ []) = b ≡ 10
EndsLine (b ∷ c ∷ bs) = EndsLine (c ∷ bs)

add_byte-cons :
    (b : ℕ) (ls : List Bytes) → (l : Bytes) × (rest : List Bytes) × (add_byte b ls ≡ l ∷ rest)
unfolding add_byte cons_first
add_byte-cons b ls = elim (Bool-cases (b == 10)) [
  | inl newline ↦ (b ∷ [], ls, rw newline refl)
  | inr other ↦ by_lines other ls
]
  where
    by_lines :
        (b == 10) ≡ false
        → (ls : List Bytes) → (l : Bytes) × (rest : List Bytes) × (add_byte b ls ≡ l ∷ rest)
    by_lines other [] = (b ∷ [], [], rw other refl)
    by_lines other (l ∷ ls) = (b ∷ l, ls, rw other refl)

add_byte-append :
    (b : ℕ) (l : Bytes) (ls ms : List Bytes)
    → add_byte b (l ∷ (ls ++ ms)) ≡ add_byte b (l ∷ ls) ++ ms
unfolding add_byte cons_first
add_byte-append b l ls ms = ground arith

byte_lines-append :
    (xs ys : Bytes) → EndsLine xs → byte_lines (xs ++ ys) ≡ byte_lines xs ++ byte_lines ys
unfolding byte_lines add_byte
byte_lines-append [] ys h = refl
byte_lines-append (b ∷ []) ys h = ended b ys h
  where
    ended :
        (b : ℕ) (ys : Bytes) → b ≡ 10 → byte_lines (b ∷ ys) ≡ byte_lines (b ∷ []) ++ byte_lines ys
    ended b ys h = ground (arith, h)
byte_lines-append (b ∷ c ∷ bs) ys h =
    joined (c ∷ bs) (byte_lines-append (c ∷ bs) ys h) (add_byte-cons c (byte_lines bs))
  where
    joined :
        (xs : Bytes)
        → byte_lines (xs ++ ys) ≡ byte_lines xs ++ byte_lines ys
        → ((l : Bytes) × (rest : List Bytes) × (byte_lines xs ≡ l ∷ rest))
        → byte_lines (b ∷ (xs ++ ys)) ≡ byte_lines (b ∷ xs) ++ byte_lines ys
    joined xs e (l, rest, shape) =
        ap (add_byte b) (e ∙ ap (λ t. t ++ byte_lines ys) shape)
        ∙ (add_byte-append b l rest (byte_lines ys)
            ∙ ap (λ t. add_byte b t ++ byte_lines ys) (sym shape))

-- One line.
byte_lines-line :
    (body : Bytes)
    → has_char 10 body ≡ false
    → byte_lines (body ++ (10 ∷ [])) ≡ (body ++ (10 ∷ [])) ∷ []
unfolding byte_lines add_byte cons_first has_char
byte_lines-line [] h = refl
byte_lines-line (b ∷ body) h = ground (arith, byte_lines-line body)

abbrev total : List Bytes → ℕ
total [] = 0
total (l ∷ ls) = length l + total ls

total-add_byte : (b : ℕ) (ls : List Bytes) → total (add_byte b ls) ≡ total ls + 1
unfolding add_byte cons_first
total-add_byte b [] = ground arith
total-add_byte b (l ∷ ls) = ground arith

total-byte_lines : (xs : Bytes) → total (byte_lines xs) ≡ length xs
unfolding byte_lines
total-byte_lines [] = refl
total-byte_lines (b ∷ bs) = omega (arith, total-add_byte b (byte_lines bs), total-byte_lines bs)

index_lines-append :
    (c : Codec) (lossy : Bytes → Text) (seq : Text) (offset : ℕ) (ls ms : List Bytes)
    (m : Dict Text Entry)
    → index_lines c lossy seq offset (ls ++ ms) m
      ≡ index_lines c lossy seq (offset + total ls) ms (index_lines c lossy seq offset ls m)
unfolding index_lines
index_lines-append c lossy seq offset [] ms m =
    let same : offset ≡ offset + 0 = omega arith in ap (λ o. index_lines c lossy seq o ms m) same
index_lines-append c lossy seq offset (l ∷ ls) ms m =
    let m' = index_line seq offset (length l) (deserialize_record c (lossy l)).0 m in
    let same : (offset + length l) + total ls ≡ offset + (length l + total ls) = omega arith in
    index_lines-append c lossy seq (offset + length l) ls ms m'
    ∙ ap (λ o. index_lines c lossy seq o ms (index_lines c lossy seq (offset + length l) ls m'))
        same

rstrip-newline : (s : Text) → rstrip (s ++ (10 ∷ [])) ≡ rstrip s
unfolding rstrip cons_unless_last_space is_space
rstrip-newline [] = refl
rstrip-newline (c ∷ s) = ap (cons_unless_last_space c) (rstrip-newline s)

-- A line is read with its "\n" as without.
deserialize-newline :
    (c : Codec) (s : Text) → deserialize_record c (s ++ (10 ∷ [])) ≡ deserialize_record c s
unfolding deserialize_record strip
deserialize-newline c s = ap (λ t. parse_cut c (cut_at_space (lstrip t))) (rstrip-newline s)

-- UTF-8 of a line: its "\n" is the last byte and the only one of that value, and what was encoded is
-- decoded, also where errors are replaced.
pub record IsLineCodec (c : Codec) (lossy : Bytes → Text) (line : Text) : Type 0 where
  pub body : Bytes
  pub encoded : c.encode (line ++ (10 ∷ [])) ≡ body ++ (10 ∷ [])
  pub one : has_char 10 body ≡ false
  pub decoded : lossy (c.encode (line ++ (10 ∷ []))) ≡ line ++ (10 ∷ [])

index_one :
    (c : Codec) (lossy : Bytes → Text) (seq : Text) (offset : ℕ) (l : Bytes) (m : Dict Text Entry)
    (id : Text)
    → IsLineId id
    → (deserialize_record c (lossy l)).0 ≡ some id
    → index_lines c lossy seq offset (l ∷ []) m
      ≡ put id (record { segment_seq = seq; offset = offset; size = length l }) m
unfolding index_lines index_line
index_one c lossy seq offset l m id p h =
    ap (λ o. index_line seq offset (length l) o m) (h ∙ ap some p.cons)
    ∙ ap (λ k. put k (record { segment_seq = seq; offset = offset; size = length l }) m)
        (sym p.cons)

-- A log file whose lines are complete, and a record appended to it under a plain id: the index that is
-- rebuilt from the longer file is the index rebuilt from the file before, with the entry that `append`
-- reported set for the id. So a rebuild gives what the writes themselves put into the index.
pub index_lines-append_record :
    (c : Codec) (lossy : Bytes → Text) (id : Text) (d : Fields) (l : Log) (m : Dict Text Entry)
    → IsLineId id
    → IsJson c d
    → IsLineCodec c lossy (serialize_record c id d)
    → EndsLine (active_bytes l)
    → let line = serialize_record c id d in
      let before = active_bytes l in
      let after = before ++ c.encode (line ++ (10 ∷ [])) in
      index_lines c lossy (show_03d l.active_segment) 0 (byte_lines after) m
      ≡ put id
          (entry_of (Log.append c line l).0)
          (index_lines c lossy (show_03d l.active_segment) 0 (byte_lines before) m)
unfolding Log.append
index_lines-append_record c lossy id d l m p j u h =
    let line = serialize_record c id d in
    let before = active_bytes l in
    let added = c.encode (line ++ (10 ∷ [])) in
    let seq = show_03d l.active_segment in
    let one : byte_lines added ≡ added ∷ [] =
      ap byte_lines u.encoded ∙ (byte_lines-line u.body u.one ∙ ap (λ t. t ∷ []) (sym u.encoded)) in
    let read : (deserialize_record c (lossy added)).0 ≡ some id =
      ap (λ t. (deserialize_record c t).0) u.decoded
      ∙ (ap (λ r. r.0) (deserialize-newline c line)
          ∙ ap (λ r. r.0) (deserialize-serialize c id d p j)) in
    let place : 0 + total (byte_lines before) ≡ length before =
      omega (arith, total-byte_lines before) in
    ap (λ ls. index_lines c lossy seq 0 ls m)
      (byte_lines-append before added h ∙ ap (λ ls. byte_lines before ++ ls) one)
    ∙ (index_lines-append c lossy seq 0 (byte_lines before) (added ∷ []) m
        ∙ (ap
              (λ o.
                index_lines c lossy seq o (added ∷ [])
                  (index_lines c lossy seq 0 (byte_lines before) m))
              place
            ∙ index_one c lossy seq (length before) added
                (index_lines c lossy seq 0 (byte_lines before) m) id p read))
