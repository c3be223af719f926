-- ===== src/Store/Service/Ids.antt =====
-- The ids that `generate_id` gives, mkdb/db/objects/store.py.
use mk_db.Base.{
  ◌≡◌, refl, ℕ, zero, suc, ◌+◌, ◌<◌, Text, List, [], ◌∷◌, none, some, true, ok, arith, ap, ◌∙◌, sym,
  Option-cases, inl, inr,
}
use mk_db.Index
use mk_db.Index.{Index}
use mk_db.Store.Service.{first_free, generate_id}

first_free-absent :
    (i : Index) (ids : List Text) (id : Text) → first_free i ids ≡ some id → Index.get id i ≡ none
unfolding first_free
first_free-absent i [] id h = absurd (cc)
first_free-absent i (k ∷ ids) id h = ground (arith, first_free-absent i ids id)

generate_id-found :
    (attempts : ℕ → List Text) (i : Index) (n len : ℕ) (id : Text)
    → first_free i (attempts len) ≡ some id
    → generate_id attempts true i (suc n) len ≡ ok (id, len)
unfolding generate_id
generate_id-found attempts i n len id h = rw (h, generate_id) refl

generate_id-longer :
    (attempts : ℕ → List Text) (i : Index) (n len : ℕ)
    → first_free i (attempts len) ≡ none
    → generate_id attempts true i (suc n) len ≡ generate_id attempts true i n (len + 1)
unfolding generate_id
generate_id-longer attempts i n len h = rw (h, generate_id) refl

-- With `auto_expand`, where some length from the present one on, within the rounds of the fuel, has a
-- candidate that is not in the index, `generate_id` returns an id that is not in the index.
pub generate_id_total :
    (attempts : ℕ → List Text) (i : Index) (fuel len k : ℕ) (free : Text)
    → first_free i (attempts (len + k)) ≡ some free
    → k < fuel
    → (id : Text) × (len' : ℕ) × (generate_id attempts true i fuel len ≡ ok (id, len'))
      × (Index.get id i ≡ none)
generate_id_total attempts i zero len k free h enough = absurd (omega arith)
generate_id_total attempts i (suc n) len zero free h enough =
    let same : len + zero ≡ len = omega arith in
    let found : first_free i (attempts len) ≡ some free =
      ap (λ l. first_free i (attempts l)) (sym same) ∙ h in
    (
      free,
      len,
      generate_id-found attempts i n len free found,
      first_free-absent i (attempts len) free found,
    )
generate_id_total attempts i (suc n) len (suc k) free h enough =
    let same : len + suc k ≡ (len + 1) + k = omega arith in
    let (id, len', run, fresh) =
      generate_id_total attempts i n (len + 1) k free
        (ap (λ l. first_free i (attempts l)) (sym same) ∙ h) (omega arith) in
    elim (Option-cases (first_free i (attempts len))) [
      | inr (id', found) ↦ (
        id',
        len,
        generate_id-found attempts i n len id' found,
        first_free-absent i (attempts len) id' found,
      )
      | inl full ↦ (id, len', generate_id-longer attempts i n len full ∙ run, fresh)
    ]
