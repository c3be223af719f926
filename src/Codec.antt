-- ===== src/Codec.antt =====
-- UTF-8 and the module `json` as the storage layer uses them: a parameter of the model, with the
-- laws that the code relies on. Texts are of characters that UTF-8 can encode.
use mk_db.Base.{ℕ, ◌≡◌, Text, List, [], ◌∷◌, ◌++◌, Option, some, false, has_char}
use mk_db.Json.{Json, obj, Fields}

-- The bytes of a file.
abbrev pub Bytes : Type 0
Bytes = List ℕ

pub record Codec : Type 0 where
  -- `s.encode("utf-8")`
  pub encode : Text → Bytes
  -- `b.decode("utf-8")`; `none` is a `UnicodeDecodeError`.
  pub decode : Bytes → Option Text
  -- `json.dumps(d, ensure_ascii=False)`
  pub dumps : Fields → Text
  -- `json.loads(s)`; `none` is a `JSONDecodeError`.
  pub loads : Text → Option Json

-- UTF-8 is decoded to what was encoded.
pub record IsUtf8 (c : Codec) : Type 0 where
  pub decode-encode : (s : Text) → c.decode (c.encode s) ≡ some s

-- `json.loads` gives back the record that `json.dumps` wrote, which is one line in braces.
pub record IsJson (c : Codec) (d : Fields) : Type 0 where
  pub loads-dumps : c.loads (c.dumps d) ≡ some (obj d)
  pub body : Text
  pub braces : c.dumps d ≡ b'{' ∷ (body ++ (b'}' ∷ []))
  pub line : has_char 10 (c.dumps d) ≡ false
