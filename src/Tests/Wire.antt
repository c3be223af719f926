-- ===== src/Tests/Wire.antt =====
-- Tests of the socket protocol and of the client's query builder.
use mk_db.Base.{ℕ, ◌≡◌, ◌≢◌, refl, arith, codes, [], ◌∷◌, none, some, ok}
use mk_db.Json.{obj}
use mk_db.Codec.{Bytes}
use mk_db.Protocol.{Socket, encode_message, read_frame}
use mk_db.Protocol.Frames.{bytes_of, read_frame-encode_message}
use mk_db.Builder.{Q}
use mk_db.Tests.Samples.{sample, sample_codec, sample_codec-IsUtf8, sample-IsJson}

abbrev body : Bytes
body = codes "{\"a\": 1}"

-- The frame of the sample in two pieces, cut inside the length.
abbrev pieces : Socket
pieces = (0 ∷ 0 ∷ []) ∷ (0 ∷ 8 ∷ body) ∷ []

nonempty : (c : ℕ) (s : Bytes) → (c ∷ s) ≢ []
nonempty c s h = cc

sent : encode_message sample_codec sample ≡ ok (0 ∷ 0 ∷ 0 ∷ 8 ∷ body)
unfolding encode_message
sent = refl

read_frame-encode_message_example :
    (s : Socket) × ((read_frame sample_codec pieces ≡ ok (obj sample, s)) × (bytes_of s ≡ []))
read_frame-encode_message_example =
    read_frame-encode_message sample_codec sample (0 ∷ 0 ∷ 0 ∷ 8 ∷ body) [] pieces
      sample_codec-IsUtf8 sample-IsJson (omega arith) (omega arith) sent
      (nonempty 0 (0 ∷ []), (nonempty 0 (8 ∷ body), tt)) refl

abbrev first_page : Q
first_page = record {
  filter = sample;
  sort_key = none;
  limit_count = some 10;
  offset_count = some 0;
}
