-- ===== src/Parity/Boot.antt =====
-- What the verification at startup does for every sealed segment.
use mk_db.Base.{
  ℕ, ◌≡◌, ◌≢◌, refl, ◌∙◌, Text, text_key, List, [], ◌∷◌, Option, none, some, Bool, true, false, put,
  get-put, arith, ℕ_discrete, ◌==◌, ◌⊎◌, inl, inr, codes, Bool-cases,
}
use mk_db.Base.Dicts
use mk_db.Codec.{Bytes}
use mk_db.Log.{segment_name}
use mk_db.Log.Segments.{segment_name-injective, numbered-injective}
use mk_db.Parity.{
  ReedSolo, IsReedSolo, Parity, Site, parity_name, parity_of, generate, repair, repair_with,
  verify_with, verify_segment, verify_and_repair, report, boot_verify, boot_verify_each,
}
use mk_db.Parity.Repair.{IsProtected, segment-ne-parity, verify_and_repair-restores}

pub parity_name-injective :
    (service : Text) (n m : ℕ) → parity_name service n ≡ parity_name service m → n ≡ m
unfolding parity_name
parity_name-injective service n m h = numbered-injective service (codes ".parity") n m h

-- The files of one segment: its log and its parity.
record KeepsFiles (p : Parity) (n : ℕ) (s' s : Site) : Type 0 where
  segment :
      Dicts.get (segment_name p.service n) s'.files ≡ Dicts.get (segment_name p.service n) s.files
  parity :
      Dicts.get (parity_name p.service n) s'.files ≡ Dicts.get (parity_name p.service n) s.files

put_parity-keeps :
    (p : Parity) (n m : ℕ) (b : Bytes) (s : Site)
    → m ≢ n
    → KeepsFiles p n (record s { files = put (parity_name p.service m) b s.files }) s
put_parity-keeps p n m b s h = record {
  segment = ground (
    arith,
    get-put (parity_name p.service m) (segment_name p.service n) b s.files,
    segment-ne-parity p.service n m,
  );
  parity = ground (
    arith,
    get-put (parity_name p.service m) (parity_name p.service n) b s.files,
    parity_name-injective p.service m n,
  );
}

generate-keeps :
    (rs : ReedSolo) (p : Parity) (n m : ℕ) (s : Site)
    → m ≢ n
    → KeepsFiles p n (record s { files = generate rs p m s.files }) s
unfolding generate
generate-keeps rs p n m s h =
    elim (Dicts.get (segment_name p.service m) s.files)
      as (λ o.
        KeepsFiles p n
          (record s {
            files = elim o [
              | none ↦ s.files
              | some bytes ↦ put (parity_name p.service m) (parity_of rs p.nsym bytes) s.files
            ];
          })
          s) [
            | none ↦ record { segment = refl; parity = refl }
            | some bytes ↦ put_parity-keeps p n m (parity_of rs p.nsym bytes) s h
          ]

repair-keeps :
    (now : ℕ) (p : Parity) (n m : ℕ) (bytes decoded : Bytes) (s : Site)
    → m ≢ n
    → KeepsFiles p n (repair now p m bytes decoded s) s
unfolding repair
repair-keeps now p n m bytes decoded s h = record {
  segment = ground (
    arith,
    get-put (segment_name p.service m) (segment_name p.service n) decoded s.files,
    segment_name-injective p.service m n,
  );
  parity = ground (
    arith,
    get-put (segment_name p.service m) (parity_name p.service n) decoded s.files,
    segment-ne-parity p.service m n,
  );
}

verify_with-keeps :
    (rs : ReedSolo) (now : ℕ) (p : Parity) (n m : ℕ) (bytes : Bytes) (o : Option Bytes) (s : Site)
    → m ≢ n
    → KeepsFiles p n (verify_with rs now p m bytes o s).1 s
unfolding verify_with
verify_with-keeps rs now p n m bytes none s h = generate-keeps rs p n m s h
verify_with-keeps rs now p n m bytes (some parity) s h = repair_with-keeps _
  where
    repair_with-keeps : (o : Option Bytes) → KeepsFiles p n (repair_with now p m bytes o s).1 s
    repair_with-keeps none = unfold repair_with in record { segment = refl; parity = refl }
    repair_with-keeps (some decoded) =
        unfold repair_with in repair-keeps now p n m bytes decoded s h

verify_segment-keeps :
    (rs : ReedSolo) (now : ℕ) (p : Parity) (n m : ℕ) (o : Option Bytes) (s : Site)
    → m ≢ n
    → KeepsFiles p n (verify_segment rs now p m o s).1 s
unfolding verify_segment
verify_segment-keeps rs now p n m none s h = record { segment = refl; parity = refl }
verify_segment-keeps rs now p n m (some bytes) s h =
    verify_with-keeps rs now p n m bytes (Dicts.get (parity_name p.service m) s.files) s h

report-files :
    (now : ℕ) (p : Parity) (n : ℕ) (b : Bool) (s : Site) → (report now p n (b, s)).files ≡ s.files
report-files now p n true s = refl
report-files now p n false s = refl

boot_verify-keeps :
    (rs : ReedSolo) (now : ℕ) (p : Parity) (active n m : ℕ) (s : Site)
    → m ≢ n
    → KeepsFiles p n (boot_verify rs now p active m s) s
unfolding boot_verify verify_and_repair
boot_verify-keeps rs now p active n m s h = elim (Bool-cases (m == active)) [
  | inl here ↦ rw here (generate-keeps rs p n m s h)
  | inr sealed ↦ rw sealed (
      reported (verify_segment rs now p m (Dicts.get (segment_name p.service m) s.files) s)
        (verify_segment-keeps rs now p n m (Dicts.get (segment_name p.service m) s.files) s h))
]
  where
    reported : (r : Bool × Site) → KeepsFiles p n r.1 s → KeepsFiles p n (report now p m r) s
    reported (true, t) k = k
    reported (false, t) k = record { segment = k.segment; parity = k.parity }

-- Protected, and with the data in place.
abbrev IsRestored : ReedSolo → Parity → ℕ → Bytes → Site → Type 0
IsRestored rs p n data_ s =
    IsProtected rs p n data_ s.files × (Dicts.get (segment_name p.service n) s.files ≡ some data_)

kept-IsProtected :
    (rs : ReedSolo) (p : Parity) (n : ℕ) (data_ : Bytes) (s' s : Site)
    → KeepsFiles p n s' s
    → IsProtected rs p n data_ s.files
    → IsProtected rs p n data_ s'.files
kept-IsProtected rs p n data_ s' s k h = record {
  received = h.received;
  segment = k.segment ∙ h.segment;
  parity = k.parity ∙ h.parity;
  near = h.near;
}

own-IsRestored :
    (rs : ReedSolo) (now : ℕ) (p : Parity) (active n : ℕ) (data_ : Bytes) (s : Site)
    → IsReedSolo rs p.nsym
    → n ≢ active
    → IsProtected rs p n data_ s.files
    → IsRestored rs p n data_ (boot_verify rs now p active n s)
unfolding boot_verify
own-IsRestored rs now p active n data_ s h sealed k =
    let (good, restored, again) = verify_and_repair-restores rs now p n data_ s h k in
    let other : (n == active) ≡ false = ground arith in
    rw other (reported (verify_and_repair rs now p n s) good again restored)
  where
    reported :
        (r : Bool × Site)
        → r.0 ≡ true
        → IsProtected rs p n data_ r.1.files
        → Dicts.get (segment_name p.service n) r.1.files ≡ some data_
        → IsRestored rs p n data_ (report now p n r)
    reported (true, t) good again restored = (again, restored)
    reported (false, t) good again restored = (
      record {
        received = again.received;
        segment = again.segment;
        parity = again.parity;
        near = again.near;
      },
      restored,
    )

each-IsRestored :
    (rs : ReedSolo) (now : ℕ) (p : Parity) (active n : ℕ) (data_ : Bytes) (ms : List ℕ) (s : Site)
    → IsReedSolo rs p.nsym
    → n ≢ active
    → IsRestored rs p n data_ s
    → IsRestored rs p n data_ (boot_verify_each rs now p active ms s)
unfolding boot_verify_each
each-IsRestored rs now p active n data_ [] s h sealed k = k
each-IsRestored rs now p active n data_ (m ∷ ms) s h sealed (guarded, restored) =
    each-IsRestored rs now p active n data_ ms (boot_verify rs now p active m s) h sealed
      (elim (ℕ_discrete m n) [
        | yes own ↦ rw own (own-IsRestored rs now p active n data_ s h sealed guarded)
        | no other ↦
            let k = boot_verify-keeps rs now p active n m s other in
            (
              kept-IsProtected rs p n data_ (boot_verify rs now p active m s) s k guarded,
              k.segment ∙ restored,
            )
      ])

abbrev IsListed : ℕ → List ℕ → Type 0
IsListed n [] = ⊥
IsListed n (m ∷ ms) = (m ≡ n) ⊎ IsListed n ms

-- The verification at startup restores the data of every listed segment that is sealed and protected:
-- its parity was made of the data, and its bytes differ from it, chunk by chunk, in no more places than
-- the code corrects. Whatever state the other segments are in, it stays restored.
pub boot_verify_each-restores :
    (rs : ReedSolo) (now : ℕ) (p : Parity) (active n : ℕ) (data_ : Bytes) (ms : List ℕ) (s : Site)
    → IsReedSolo rs p.nsym
    → n ≢ active
    → IsListed n ms
    → IsProtected rs p n data_ s.files
    → Dicts.get (segment_name p.service n) (boot_verify_each rs now p active ms s).files
      ≡ some data_
unfolding boot_verify_each
boot_verify_each-restores rs now p active n data_ [] s h sealed listed k = absurd listed
boot_verify_each-restores rs now p active n data_ (m ∷ ms) s h sealed listed k =
    elim (ℕ_discrete m n) [
      | yes own ↦
          (each-IsRestored rs now p active n data_ ms (boot_verify rs now p active m s) h sealed
            (rw own (own-IsRestored rs now p active n data_ s h sealed k))).1
      | no other ↦
          boot_verify_each-restores rs now p active n data_ ms (boot_verify rs now p active m s) h
            sealed (elim listed [ inl own ↦ absurd (other own) | inr later ↦ later ])
            (kept-IsProtected rs p n data_ (boot_verify rs now p active m s) s
              (boot_verify-keeps rs now p active n m s other) k)
    ]
