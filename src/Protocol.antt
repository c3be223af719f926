-- ===== src/Protocol.antt =====
-- The frames of the socket protocol, mkdb/server/coms/socket_protocol.py. A socket is the list of the
-- pieces that arrive, one for each `recv` that asks for enough bytes; after the last it is closed. `json` and UTF-8
-- are those of the codec.
pub mod Frames
use mk_db.Base.{
  ℕ, zero, suc, ◌+◌, ◌-◌, ◌*◌, ◌/◌, ◌%◌, List, [], ◌∷◌, ◌++◌, Option, none, some, length, take,
  drop, ltb, if◌then◌else◌, ok, raise, ◌>>=◌, or_raise, value_error, os_error, out_of_fuel,
}
use mk_db.Base.Result.{Result}
use mk_db.Json.{Json, obj, Fields, end}
use mk_db.Codec.{Codec, Bytes}

-- `_MAX_FRAME_SIZE`
abbrev pub max_frame_size : ℕ
max_frame_size = 10485760

-- `struct.pack(">I", n)`; a number that does not fit raises.
unfoldable pub pack : ℕ → Result Bytes
pack n =
    if ltb n 4294967296
    then ok ((n / 16777216) % 256 ∷ (n / 65536) % 256 ∷ (n / 256) % 256 ∷ n % 256 ∷ [])
    else raise value_error

-- `struct.unpack(">I", b)[0]`
unfoldable pub unpack : Bytes → Result ℕ
unpack (a ∷ b ∷ c ∷ d ∷ []) = ok (a * 16777216 + b * 65536 + c * 256 + d)
unpack _ = raise value_error

unfoldable pub encode_message : Codec → Fields → Result Bytes
unfolding pack
encode_message c d = do
  prefix ← pack (length (c.encode (c.dumps d)))
  ok (prefix ++ c.encode (c.dumps d))

abbrev pub Socket : Type 0
Socket = List Bytes

-- `sock.recv(n)`: at most `n` bytes of the next piece; the rest of it stays.
unfoldable pub recv : ℕ → Socket → Bytes × Socket
recv n [] = ([], [])
recv n (p ∷ ps) = if ltb n (length p) then (take n p, drop n p ∷ ps) else (p, ps)

-- The loop of `_recv_exact`, while `need` bytes are missing; a piece has a byte at least, so `need`
-- rounds are enough.
unfoldable pub recv_exact : ℕ → ℕ → Bytes → Socket → Result (Bytes × Socket)
unfolding recv
recv_exact fuel zero buf s = ok (buf, s)
recv_exact zero (suc need) buf s = raise out_of_fuel
recv_exact (suc fuel) (suc need) buf s =
    let (chunk, s') = recv (suc need) s in
    elim chunk [
      | [] ↦ raise os_error
      | x ∷ xs ↦ recv_exact fuel (suc need - length (x ∷ xs)) (buf ++ (x ∷ xs)) s'
    ]

-- The payload of a frame of the length.
unfoldable pub read_payload : Codec → ℕ → Socket → Result (Json × Socket)
unfolding recv_exact
read_payload c zero s = ok (obj end, s)
read_payload c (suc n) s = if ltb max_frame_size (suc n) then raise value_error else (do
  (payload, s') ← recv_exact (suc n) (suc n) [] s
  text ← or_raise value_error (c.decode payload)
  v ← or_raise value_error (c.loads text)
  ok (v, s'))

unfoldable pub read_frame : Codec → Socket → Result (Json × Socket)
unfolding unpack read_payload
read_frame c s = do (prefix, s') ← recv_exact 4 4 [] s; n ← unpack prefix; read_payload c n s'
