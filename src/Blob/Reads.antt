-- ===== src/Blob/Reads.antt =====
-- A blob is read back, and is lost to another id that has the same file.
use mk_db.Base.{
  ℕ, ◌≡◌, refl, Text, [], ◌∷◌, ◌++◌, some, false, text_key, get-put, ok, arith, has_char, codes,
}
use mk_db.Base.Dicts
use mk_db.Codec.{Codec, IsUtf8}
use mk_db.Blob.{write_blob, blob_path, safe_id}
use mk_db.Log.{Log, read, translate_newlines, strip_prefix}

translate_newlines-plain : (s : Text) → has_char 13 s ≡ false → translate_newlines false s ≡ s
unfolding translate_newlines has_char
translate_newlines-plain [] h = refl
translate_newlines-plain (c ∷ s) h = ground (arith, translate_newlines-plain s)

strip_prefix-blob_path :
    (id : Text) → strip_prefix (codes "blobs/") (blob_path id) ≡ some (safe_id id ++ codes ".dat")
unfolding strip_prefix blob_path
strip_prefix-blob_path id = refl

read-file :
    (c : Codec) (id line : Text) (offset size : ℕ) (l : Log)
    → IsUtf8 c
    → has_char 13 line ≡ false
    → Dicts.get (blob_path id) l.files ≡ some (c.encode line)
    → read c (blob_path id) offset size l ≡ ok line
unfolding read
read-file c id line offset size l u h file =
    rw (strip_prefix-blob_path id, read, file, u.decode-encode, translate_newlines-plain line h)
      refl

-- If UTF-8 decodes what it encoded, a blob without "\r" is read back from the place that
-- `write_blob` reports.
pub read-write_blob :
    (c : Codec) (id line : Text) (l : Log)
    → IsUtf8 c
    → has_char 13 line ≡ false
    → read c
        (write_blob c id line l.files).0.0
        (write_blob c id line l.files).0.1
        (write_blob c id line l.files).0.2
        (record l { files = (write_blob c id line l.files).1 })
      ≡ ok line
unfolding write_blob
read-write_blob c id line l u h =
    read-file c id line _ _ (record l { files = Dicts.put (blob_path id) (c.encode line) l.files })
      u h (ground (arith, get-put (blob_path id) (blob_path id) (c.encode line) l.files))

-- If UTF-8 decodes what it encoded: ids that differ only in characters that `write_blob` replaces
-- share a file, so after the second is written, without "\r", the first one's place holds the
-- second one's line.
read-write_blob_shared :
    (c : Codec) (id other line line' : Text) (l : Log)
    → IsUtf8 c
    → has_char 13 line' ≡ false
    → safe_id id ≡ safe_id other
    → read c
        (write_blob c id line l.files).0.0
        (write_blob c id line l.files).0.1
        (write_blob c id line l.files).0.2
        (record l { files = (write_blob c other line' (write_blob c id line l.files).1).1 })
      ≡ ok line'
unfolding write_blob
read-write_blob_shared c id other line line' l u h same =
    let path : blob_path id ≡ blob_path other = unfold blob_path in rw same refl in
    let files = Dicts.put (blob_path id) (c.encode line) l.files in
    read-file c id line' _ _
      (record l { files = Dicts.put (blob_path other) (c.encode line') files }) u h
      (ground (arith, path, get-put (blob_path other) (blob_path id) (c.encode line') files))
