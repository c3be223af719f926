-- ===== src/Parity/Chunks.antt =====
-- Chunks that are near those the parity was made of decode to them.
use mk_db.Base.{
  ℕ, zero, suc, ◌+◌, ◌/◌, ◌≤◌, ◌≡◌, refl, sym, ◌∙◌, ap, List, [], ◌∷◌, ◌++◌, some, length, take,
  drop, length-take-le, take-append, drop-append, arith,
}
use mk_db.Codec.{Bytes}
use mk_db.Parity.{
  ReedSolo, IsReedSolo, chunk_size, distance, chunks, ecc_of, parity_of, decode_chunks,
  join_messages,
}

abbrev concat : List Bytes → Bytes
concat [] = []
concat (b ∷ bs) = b ++ concat bs

-- Chunk by chunk of one length, and no more wrong bytes than the code corrects.
abbrev AreNear : ℕ → List Bytes → List Bytes → Type 0
AreNear nsym [] [] = Unit {0}
AreNear nsym [] (b ∷ bs) = ⊥
AreNear nsym (a ∷ as_) [] = ⊥
AreNear nsym (a ∷ as_) (b ∷ bs) =
    (length a ≡ length b) × (distance a b ≤ nsym / 2) × AreNear nsym as_ bs

-- The bytes that are read have the length of the data, and few errors in each chunk.
abbrev pub HasFewErrors : ℕ → Bytes → Bytes → Type 0
HasFewErrors nsym received data_ =
    AreNear nsym (chunks (length received) (chunk_size nsym) received)
      (chunks (length data_) (chunk_size nsym) data_)

take-drop : (n : ℕ) (xs : Bytes) → take n xs ++ drop n xs ≡ xs
take-drop zero xs = refl
take-drop (suc n) [] = refl
take-drop (suc n) (x ∷ xs) = ap (◌∷◌ x) (take-drop n xs)

drop-nil : (n : ℕ) → ◌≡◌ {A = Bytes} (drop n []) []
drop-nil zero = refl
drop-nil (suc n) = refl

drop-drop : (n m : ℕ) (xs : Bytes) → drop (n + m) xs ≡ drop m (drop n xs)
drop-drop zero m xs = let same : zero + m ≡ m = omega arith in ap (λ k. drop k xs) same
drop-drop (suc n) m [] = drop-nil (suc n + m) ∙ sym (drop-nil m)
drop-drop (suc n) m (x ∷ xs) =
    let same : suc n + m ≡ suc (n + m) = omega arith in
    ap (λ k. drop k (x ∷ xs)) same ∙ drop-drop n m xs

length-drop_lt : (n : ℕ) (x : ℕ) (xs : Bytes) → 1 ≤ n → length (drop n (x ∷ xs)) ≤ length xs
length-drop_lt zero x xs h = absurd (omega arith)
length-drop_lt (suc n) x xs h = length-drop-le n xs
  where
    length-drop-le : (n : ℕ) (xs : Bytes) → length (drop n xs) ≤ length xs
    length-drop-le zero xs = omega arith
    length-drop-le (suc n) [] = omega arith
    length-drop-le (suc n) (x ∷ xs) = omega (arith, length-drop-le n xs)

-- With enough fuel no byte is left out.
concat-chunks :
    (n size : ℕ) (xs : Bytes) → 1 ≤ size → length xs ≤ n → concat (chunks n size xs) ≡ xs
unfolding chunks
concat-chunks zero size [] p h = refl
concat-chunks zero size (x ∷ xs) p h = absurd (omega arith)
concat-chunks (suc n) size [] p h = refl
concat-chunks (suc n) size (x ∷ xs) p h =
    ap (λ t. take size (x ∷ xs) ++ t)
      (concat-chunks n size (drop size (x ∷ xs)) p (omega (arith, length-drop_lt size x xs p)))
    ∙ take-drop size (x ∷ xs)

abbrev AreSmall : ℕ → List Bytes → Type 0
AreSmall size [] = Unit {0}
AreSmall size (b ∷ bs) = (length b ≤ size) × AreSmall size bs

chunks-AreSmall : (n size : ℕ) (xs : Bytes) → AreSmall size (chunks n size xs)
unfolding chunks
chunks-AreSmall zero size xs = tt
chunks-AreSmall (suc n) size [] = tt
chunks-AreSmall (suc n) size (x ∷ xs) =
    (length-take-le size (x ∷ xs), chunks-AreSmall n size (drop size (x ∷ xs)))

distance_refl : (xs : Bytes) → distance xs xs ≡ 0
unfolding distance
distance_refl [] = refl
distance_refl (x ∷ xs) = ground (arith, distance_refl xs)

pub AreNear-refl : (nsym : ℕ) (bs : List Bytes) → AreNear nsym bs bs
AreNear-refl nsym [] = tt
AreNear-refl nsym (b ∷ bs) = (refl, omega (arith, distance_refl b), AreNear-refl nsym bs)

-- The symbols of the first chunk, and those of the others.
ecc_of-cons :
    (rs : ReedSolo) (nsym : ℕ) (h : IsReedSolo rs nsym) (b : Bytes) (bs : List Bytes)
    → length b ≤ chunk_size nsym
    → ecc_of rs nsym (b ∷ bs) ≡ h.ecc b ++ ecc_of rs nsym bs
unfolding ecc_of
ecc_of-cons rs nsym h b bs small =
    ap (λ t. drop (length b) t ++ ecc_of rs nsym bs) (h.encoded b small)
    ∙ ap (λ t. t ++ ecc_of rs nsym bs) (drop-append b (h.ecc b))

take-ecc :
    (n : ℕ) (e rest : Bytes) → length e ≡ n → (take n (e ++ rest) ≡ e) × (drop n (e ++ rest) ≡ rest)
take-ecc n e rest h = (
  ap (λ k. take k (e ++ rest)) (sym h) ∙ take-append e rest,
  ap (λ k. drop k (e ++ rest)) (sym h) ∙ drop-append e rest,
)

decode_chunks-near :
    (rs : ReedSolo) (nsym : ℕ) (h : IsReedSolo rs nsym) (offset : ℕ) (parity : Bytes)
    (received original : List Bytes)
    → drop offset parity ≡ ecc_of rs nsym original
    → AreSmall (chunk_size nsym) original
    → AreNear nsym received original
    → decode_chunks rs nsym offset parity received ≡ some (concat original)
unfolding decode_chunks
decode_chunks-near rs nsym h offset parity [] [] at small near = refl
decode_chunks-near rs nsym h offset parity [] (b ∷ bs) at small near = absurd near
decode_chunks-near rs nsym h offset parity (a ∷ as_) [] at small near = absurd near
decode_chunks-near rs nsym h offset parity (a ∷ as_) (b ∷ bs) at (small, smalls)
      (same, close, near) =
    let (front, back) = take-ecc nsym (h.ecc b) (ecc_of rs nsym bs) (h.symbols b small) in
    let here : drop offset parity ≡ h.ecc b ++ ecc_of rs nsym bs =
      at ∙ ecc_of-cons rs nsym h b bs small in
    let symbols : take nsym (drop offset parity) ≡ h.ecc b = ap (take nsym) here ∙ front in
    let behind : drop (offset + nsym) parity ≡ ecc_of rs nsym bs =
      drop-drop offset nsym parity ∙ (ap (drop nsym) here ∙ back) in
    ap (λ m. join_messages m (decode_chunks rs nsym (offset + nsym) parity as_))
      (ap (λ t. rs.decode nsym (a ++ t)) symbols ∙ h.corrects b a small same close)
    ∙ ap (λ r. join_messages (some b) r)
        (decode_chunks-near rs nsym h (offset + nsym) parity as_ bs behind smalls near)

-- The parity of the data decodes bytes with few errors to the data.
pub decode-parity_of :
    (rs : ReedSolo) (nsym : ℕ) (h : IsReedSolo rs nsym) (received data_ : Bytes)
    → HasFewErrors nsym received data_
    → decode_chunks rs nsym 0
        (parity_of rs nsym data_)
        (chunks (length received) (chunk_size nsym) received)
      ≡ some data_
unfolding parity_of
decode-parity_of rs nsym h received data_ near =
    decode_chunks-near rs nsym h 0 (parity_of rs nsym data_)
      (chunks (length received) (chunk_size nsym) received)
      (chunks (length data_) (chunk_size nsym) data_) refl
      (chunks-AreSmall (length data_) (chunk_size nsym) data_) near
    ∙ ap some
        (concat-chunks (length data_) (chunk_size nsym) data_ (omega (arith, h.size)) (omega arith))
