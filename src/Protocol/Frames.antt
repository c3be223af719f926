-- ===== src/Protocol/Frames.antt =====
-- A message that was sent is read back, however its bytes are cut into pieces on the way,
-- mkdb/server/coms/socket_protocol.py.
use mathlib.Core.List.{append_assoc, append-nil}
use mk_db.Base.{
  ℕ, zero, suc, ◌+◌, ◌-◌, ◌*◌, ◌/◌, ◌%◌, ◌≤◌, ◌<◌, ◌≡◌, ◌≢◌, refl, sym, ap, ◌∙◌, arith, [], ◌∷◌,
  ◌++◌, length, take, drop, ltb, ok, raise, Bool-cases, inl, inr, true, false, All, os_error,
  length-append, take-append, drop-append, ok-injective,
}
use mk_db.Base.Result.{Result}
use mk_db.Json.{Json, obj, Fields}
use mk_db.Codec.{Codec, Bytes, IsUtf8, IsJson}
use mk_db.Protocol.{
  max_frame_size, pack, unpack, encode_message, Socket, recv, recv_exact, read_payload, read_frame,
}

-- The bytes that arrive.
abbrev pub bytes_of : Socket → Bytes
bytes_of [] = []
bytes_of (p ∷ ps) = p ++ bytes_of ps

-- No piece is empty.
abbrev HasPieces : Socket → Type 0
HasPieces s = All (λ p. p ≢ []) s

take-append_ge :
    (n : ℕ) (xs ys : Bytes) → length xs ≤ n → take n (xs ++ ys) ≡ xs ++ take (n - length xs) ys
take-append_ge n [] ys h = let z : n - zero ≡ n = omega arith in rw z refl
take-append_ge zero (x ∷ xs) ys h = absurd (omega arith)
take-append_ge (suc n) (x ∷ xs) ys h =
    let z : suc n - suc (length xs) ≡ n - length xs = omega arith in
    rw z (ap (◌∷◌ x) (take-append_ge n xs ys (omega arith)))

drop-append_ge :
    (n : ℕ) (xs ys : Bytes) → length xs ≤ n → drop n (xs ++ ys) ≡ drop (n - length xs) ys
drop-append_ge n [] ys h = let z : n - zero ≡ n = omega arith in rw z refl
drop-append_ge zero (x ∷ xs) ys h = absurd (omega arith)
drop-append_ge (suc n) (x ∷ xs) ys h =
    let z : suc n - suc (length xs) ≡ n - length xs = omega arith in
    rw z (drop-append_ge n xs ys (omega arith))

take-append_lt : (n : ℕ) (xs ys : Bytes) → n ≤ length xs → take n (xs ++ ys) ≡ take n xs
take-append_lt zero xs ys h = refl
take-append_lt (suc n) [] ys h = absurd (omega arith)
take-append_lt (suc n) (x ∷ xs) ys h = ap (◌∷◌ x) (take-append_lt n xs ys (omega arith))

drop-append_lt : (n : ℕ) (xs ys : Bytes) → n ≤ length xs → drop n (xs ++ ys) ≡ drop n xs ++ ys
drop-append_lt zero xs ys h = refl
drop-append_lt (suc n) [] ys h = absurd (omega arith)
drop-append_lt (suc n) (x ∷ xs) ys h = drop-append_lt n xs ys (omega arith)

drop_nonempty : (n : ℕ) (xs : Bytes) → n < length xs → drop n xs ≢ []
drop_nonempty n [] h e = absurd (omega arith)
drop_nonempty zero (x ∷ xs) h e = cc
drop_nonempty (suc n) (x ∷ xs) h e = drop_nonempty n xs (omega arith) e

length-take_lt : (n : ℕ) (xs : Bytes) → n ≤ length xs → length (take n xs) ≡ n
length-take_lt zero xs h = refl
length-take_lt (suc n) [] h = absurd (omega arith)
length-take_lt (suc n) (x ∷ xs) h = ap suc (length-take_lt n xs (omega arith))

-- The four bytes of a length.
abbrev length_bytes : ℕ → Bytes
length_bytes n = (n / 16777216) % 256 ∷ (n / 65536) % 256 ∷ (n / 256) % 256 ∷ n % 256 ∷ []

pack_lem : (n : ℕ) → n ≤ max_frame_size → pack n ≡ ok (length_bytes n)
unfolding pack
pack_lem n h = ground arith

bytes_value :
    (n : ℕ)
    → n ≤ max_frame_size
    → (n / 16777216) % 256 * 16777216 + (n / 65536) % 256 * 65536 + (n / 256) % 256 * 256 + n % 256
      ≡ n
bytes_value n h = omega arith

unpack-length_bytes : (n : ℕ) → n ≤ max_frame_size → unpack (length_bytes n) ≡ ok n
unfolding unpack
unpack-length_bytes n h = ap ok (bytes_value n h)

abbrev Received : Bytes → ℕ → Bytes → Result (Bytes × Socket) → Type 0
Received buf need all r =
    (s : Socket) × ((r ≡ ok (buf ++ take need all, s))
      × ((bytes_of s ≡ drop need all) × HasPieces s))

recv_long :
    (need x : ℕ) (xs : Bytes) (ps : Socket)
    → ltb (suc need) (suc (length xs)) ≡ true
    → recv (suc need) ((x ∷ xs) ∷ ps) ≡ (x ∷ take need xs, drop need xs ∷ ps)
unfolding recv
recv_long need x xs ps h = rw h refl

recv_short :
    (need x : ℕ) (xs : Bytes) (ps : Socket)
    → ltb (suc need) (suc (length xs)) ≡ false
    → recv (suc need) ((x ∷ xs) ∷ ps) ≡ (x ∷ xs, ps)
unfolding recv
recv_short need x xs ps h = rw h refl

recv_exact_step :
    (fuel need x : ℕ) (buf xs : Bytes) (s s' : Socket)
    → recv (suc need) s ≡ (x ∷ xs, s')
    → recv_exact (suc fuel) (suc need) buf s
      ≡ recv_exact fuel (suc need - suc (length xs)) (buf ++ (x ∷ xs)) s'
unfolding recv_exact
recv_exact_step fuel need x buf xs s s' h =
    ap
      (λ p. elim p.0 as (λ _. Result (Bytes × Socket)) [
        | [] ↦ raise os_error
        | y ∷ ys ↦ recv_exact fuel (suc need - length (y ∷ ys)) (buf ++ (y ∷ ys)) p.1
      ])
      h

recv_exact-Received :
    (fuel need : ℕ) (buf : Bytes) (s : Socket)
    → need ≤ fuel
    → HasPieces s
    → need ≤ length (bytes_of s)
    → Received buf need (bytes_of s) (recv_exact fuel need buf s)
unfolding recv_exact
recv_exact-Received fuel zero buf s f h l =
    (s, (ap (λ b. ok (b, s)) (sym (append-nil buf)), (refl, h)))
recv_exact-Received zero (suc need) buf s f h l = absurd (omega arith)
recv_exact-Received (suc fuel) (suc need) buf [] f h l = absurd (omega arith)
recv_exact-Received (suc fuel) (suc need) buf ([] ∷ ps) f h l = absurd (h.0 refl)
recv_exact-Received (suc fuel) (suc need) buf ((x ∷ xs) ∷ ps) f h l =
    elim (Bool-cases (ltb (suc need) (suc (length xs)))) [
      | inl long ↦
          let inside : need < length xs = ground arith in
          let taken : length (take need xs) ≡ need = length-take_lt need xs (omega arith) in
          let done : suc need - suc (length (take need xs)) ≡ zero = omega (arith, taken) in
          (
            drop need xs ∷ ps,
            (
              recv_exact_step fuel need x buf (take need xs) ((x ∷ xs) ∷ ps) (drop need xs ∷ ps)
                    (recv_long need x xs ps long)
                  ∙ rw done (
                      ap (λ b. ok (buf ++ (x ∷ b), drop need xs ∷ ps))
                        (sym (take-append_lt need xs (bytes_of ps) (omega arith)))),
              (
                sym (drop-append_lt need xs (bytes_of ps) (omega arith)),
                (drop_nonempty need xs inside, h.1),
              ),
            ),
          )
      | inr short ↦
          let inside : length xs ≤ need = ground arith in
          let left : suc need - suc (length xs) ≡ need - length xs = omega arith in
          let more : need - length xs ≤ length (bytes_of ps) =
            omega (arith, length-append xs (bytes_of ps), l) in
          let (t, (e, (b, k))) =
            recv_exact-Received fuel (need - length xs) (buf ++ (x ∷ xs)) ps (omega arith) h.1
              more in
          (
            t,
            (
              recv_exact_step fuel need x buf xs ((x ∷ xs) ∷ ps) ps (recv_short need x xs ps short)
                  ∙ (ap (λ k. recv_exact fuel k (buf ++ (x ∷ xs)) ps) left
                      ∙ (e
                          ∙ ap (λ b. ok (b, t))
                              (append_assoc buf (x ∷ xs) (take (need - length xs) (bytes_of ps))
                                ∙ ap (λ b. buf ++ (x ∷ b))
                                    (sym (take-append_ge need xs (bytes_of ps) inside))))),
              (b ∙ sym (drop-append_ge need xs (bytes_of ps) inside), k),
            ),
          )
    ]

encode_message_lem :
    (c : Codec) (d : Fields)
    → length (c.encode (c.dumps d)) ≤ max_frame_size
    → encode_message c d ≡ ok (length_bytes (length (c.encode (c.dumps d))) ++ c.encode (c.dumps d))
unfolding encode_message
encode_message_lem c d fits = rw (pack_lem (length (c.encode (c.dumps d))) fits) refl

read_payload_lem :
    (c : Codec) (d : Fields) (n : ℕ) (s s' : Socket)
    → IsUtf8 c
    → IsJson c d
    → zero < n
    → n ≤ max_frame_size
    → recv_exact n n [] s ≡ ok (c.encode (c.dumps d), s')
    → read_payload c n s ≡ ok (obj d, s')
unfolding read_payload
read_payload_lem c d zero s s' u j some_bytes fits e = absurd (omega arith)
read_payload_lem c d (suc n) s s' u j some_bytes fits e =
    let small : ltb max_frame_size (suc n) ≡ false = ground arith in
    rw (small, e, u.decode-encode (c.dumps d), j.loads-dumps) refl

read_frame_lem :
    (c : Codec) (s s1 : Socket) (n : ℕ) (r : Json × Socket)
    → n ≤ max_frame_size
    → recv_exact 4 4 [] s ≡ ok (length_bytes n, s1)
    → read_payload c n s1 ≡ ok r
    → read_frame c s ≡ ok r
unfolding read_frame
read_frame_lem c s s1 n r fits got payload = rw (got, bytes_value n fits) payload

-- A message of at most the largest size, whose bytes arrive in pieces however it is cut, is read back
-- as it was sent, and what arrived after it is left in the socket.
pub read_frame-encode_message :
    (c : Codec) (d : Fields) (b more : Bytes) (s : Socket)
    → IsUtf8 c
    → IsJson c d
    → zero < length (c.encode (c.dumps d))
    → length (c.encode (c.dumps d)) ≤ max_frame_size
    → encode_message c d ≡ ok b
    → HasPieces s
    → bytes_of s ≡ b ++ more
    → (s' : Socket) × ((read_frame c s ≡ ok (obj d, s')) × (bytes_of s' ≡ more))
read_frame-encode_message c d b more s u j some_bytes fits sent h arrived =
    let body : Bytes = c.encode (c.dumps d) in
    let framed : b ≡ length_bytes (length body) ++ body = sym (
      ok-injective (length_bytes (length body) ++ body) b
        (sym (encode_message_lem c d fits) ∙ sent)) in
    let all : bytes_of s ≡ length_bytes (length body) ++ (body ++ more) =
      arrived ∙ rw framed refl in
    let (s1, (e1, (b1, h1))) =
      recv_exact-Received 4 4 [] s (omega arith) h (rw all (ground arith)) in
    let at_body : bytes_of s1 ≡ body ++ more = b1 ∙ ap (drop 4) all in
    let got : recv_exact 4 4 [] s ≡ ok (length_bytes (length body), s1) =
      e1 ∙ ap (λ t. ok (take 4 t, s1)) all in
    let arrives : length (bytes_of s1) ≡ length body + length more =
      ap length at_body ∙ length-append body more in
    let (s2, (e2, (b2, h2))) =
      recv_exact-Received (length body) (length body) [] s1 (omega arith) h1
        (omega (arith, arrives)) in
    let payload : recv_exact (length body) (length body) [] s1 ≡ ok (body, s2) =
      e2 ∙ ap (λ t. ok (t, s2)) (ap (take (length body)) at_body ∙ take-append body more) in
    (
      s2,
      (
        read_frame_lem c s s1 (length body) (obj d, s2) fits got
            (read_payload_lem c d (length body) s1 s2 u j some_bytes fits payload),
        b2 ∙ ap (drop (length body)) at_body ∙ drop-append body more,
      ),
    )
