-- ===== src/Blob.antt =====
-- Records too large for the log, mkdb/db/storage/blob_store.py: `write_blob` puts each in a file of
-- its own. `LogManager.read` reads it back; `read_blob` is not called by the program.
pub mod Names
pub mod Reads
use mk_db.Base.{
  ℕ, Text, List, [], ◌∷◌, ◌++◌, Dict, put, text_key, ◌==◌, ◌&&◌, if◌then◌else◌, length, codes, true,
  false,
}
use mk_db.Codec.{Codec, Bytes}

-- `s.replace(a, b)` for characters.
unfoldable pub replace_char : ℕ → ℕ → Text → Text
replace_char a b [] = []
replace_char a b (c ∷ s) = (if c == a then b else c) ∷ replace_char a b s

-- `s.replace("..", "_")`, from left to right.
unfoldable pub replace_dots : Text → Text
replace_dots [] = []
replace_dots (c ∷ []) = c ∷ []
replace_dots (c ∷ d ∷ s) = elim (c == b'.' && d == b'.') [
  | true ↦ b'_' ∷ replace_dots s
  | false ↦ c ∷ replace_dots (d ∷ s)
]

unfoldable pub safe_id : Text → Text
unfolding replace_char replace_dots
safe_id id = replace_dots (replace_char b'\\' b'_' (replace_char b'/' b'_' id))

unfoldable pub blob_path : Text → Text
blob_path id = codes "blobs/" ++ (safe_id id ++ codes ".dat")

-- The segment, offset and size of the blob, and the files with it.
unfoldable pub write_blob : Codec → Text → Text → Dict Text Bytes → (Text × ℕ × ℕ) × Dict Text Bytes
write_blob c id line files =
    ((blob_path id, 0, length (c.encode line)), put (blob_path id) (c.encode line) files)
