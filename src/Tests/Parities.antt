-- ===== src/Tests/Parities.antt =====
-- Tests of the parity files, with a code that keeps a copy of each chunk.
use mk_db.Base.{
  ℕ, zero, suc, ◌-◌, ◌≤◌, ◌≡◌, refl, ◌∙◌, ap, [], ◌∷◌, ◌++◌, some, codes, text_key, text_discrete,
  arith, length, take, drop, length-append, take-append, drop-append, inl, show_03d,
}
use mk_db.Base.Dicts
use mk_db.Codec.{Bytes}
use mk_db.Log.{segment_name}
use mk_db.Parity.{
  ReedSolo, IsReedSolo, Parity, Site, parity_name, parity_of, distance, chunks, boot_verify_each,
}
use mk_db.Parity.Repair.{IsProtected}
use mk_db.Parity.Boot.{boot_verify_each-restores}

abbrev zeros : ℕ → Bytes
zeros zero = []
zeros (suc n) = 0 ∷ zeros n

length-zeros : (n : ℕ) → length (zeros n) ≡ n
length-zeros zero = refl
length-zeros (suc n) = ap suc (length-zeros n)

abbrev copy : Bytes → Bytes
copy chunk = chunk ++ zeros (128 - length chunk)

abbrev repeat : ReedSolo
repeat = record {
  encode = λ nsym chunk. chunk ++ copy chunk;
  decode = λ nsym b. some (take (length b - 128) (drop (length b - 128) b));
}

length-copy : (chunk : Bytes) → length chunk ≤ 127 → length (copy chunk) ≡ 128
length-copy chunk h =
    omega
      (arith, length-append chunk (zeros (128 - length chunk)), length-zeros (128 - length chunk))

repeat-corrects :
    (chunk received : Bytes)
    → length chunk ≤ 127
    → length received ≡ length chunk
    → repeat.decode 128 (received ++ copy chunk) ≡ some chunk
repeat-corrects chunk received small same =
    let size : length (received ++ copy chunk) - 128 ≡ length received =
      omega (arith, length-append received (copy chunk), length-copy chunk small) in
    ap (λ n. some (take n (drop n (received ++ copy chunk)))) size
    ∙ (ap (λ b. some (take (length received) b)) (drop-append received (copy chunk))
        ∙ (ap (λ n. some (take n (copy chunk))) same
            ∙ ap some (take-append chunk (zeros (128 - length chunk)))))

repeat-IsReedSolo : IsReedSolo repeat 128
repeat-IsReedSolo = record {
  size = omega arith;
  ecc = copy;
  encoded = λ chunk small. refl;
  symbols = λ chunk small. length-copy chunk (omega (arith, small));
  corrects =
      λ chunk received small same close. repeat-corrects chunk received (omega (arith, small)) same;
}

abbrev manager : Parity
manager = record { service = codes "s"; nsym = 128 }

abbrev line : Bytes
line = codes "b {}" ++ 10 ∷ []

-- One byte of the first segment is damaged.
abbrev site : Site
site = record {
  files =
      (codes "s_001.log", codes "b {]" ++ 10 ∷ [])
      ∷ (codes "s_001.parity", parity_of repeat 128 line)
      ∷ (codes "s_002.log", [])
      ∷ [];
  events = [];
}

site-IsProtected : IsProtected repeat manager 1 line site.files
unfolding segment_name parity_name show_03d Dicts.get text_discrete chunks distance
site-IsProtected = record {
  received = codes "b {]" ++ 10 ∷ [];
  segment = refl;
  parity = refl;
  near = (refl, omega arith, tt);
}

boot_verify_each-restores_example :
    Dicts.get
      (segment_name (codes "s") 1)
      (boot_verify_each repeat 5 manager 2 (1 ∷ 2 ∷ []) site).files
    ≡ some line
boot_verify_each-restores_example =
    boot_verify_each-restores repeat 5 manager 2 1 line (1 ∷ 2 ∷ []) site repeat-IsReedSolo
      (λ h. omega (arith, h)) (inl refl) site-IsProtected
