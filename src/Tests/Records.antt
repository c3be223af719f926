-- ===== src/Tests/Records.antt =====
-- Tests of the operations on records with dotted keys.
use mk_db.Base.{
  ◌≡◌, ◌≢◌, inl, inr, refl, sym, [], ◌∷◌, some, false, codes, text_key, text_discrete, arith, split,
}
use mk_db.Json.{Fields, end, field, obj, int}
use mk_db.Json.Entries
use mk_db.Json.Entries.{get, HasDistinctKeys}
use mk_db.Objects.{set_path, partition_object}
use mk_db.Objects.Paths.{get_path}
use mk_db.Objects.Partition.{IsSeparated}
use mk_db.Objects.Open.{partition_object_total}

abbrev other_sample : Fields
other_sample = field (codes "a") (int false 2) (field (codes "b") (int false 3) end)

other_sample-HasDistinctKeys : HasDistinctKeys other_sample
unfolding get text_discrete
other_sample-HasDistinctKeys = (refl, (refl, tt))

-- `{"a.b": 1, "a.c": 2}`
abbrev dotted_record : Fields
dotted_record = field (codes "a.b") (int false 1) (field (codes "a.c") (int false 2) end)

b-ne-c : codes "b" ≢ codes "c"
b-ne-c h = ground arith

dotted_record-IsSeparated : IsSeparated b'.' dotted_record
unfolding split
dotted_record-IsSeparated = ((inr (inl (λ h. b-ne-c (sym h))), tt), (tt, tt))

second_value : get (codes "a.c") dotted_record ≡ some (int false 2)
unfolding get text_discrete
second_value = refl

partition_object_total_example :
    (r : Fields) × (partition_object b'.' dotted_record ≡ some r)
    × (get_path (split b'.' (codes "a.c")) r ≡ some (int false 2))
partition_object_total_example =
    partition_object_total b'.' dotted_record (codes "a.c") (int false 2) dotted_record-IsSeparated
      second_value

-- A write at "a", "b" beside "a", "c".
abbrev before_write : Fields
before_write = field (codes "a") (obj (field (codes "c") (int false 2) end)) end

abbrev after_write : Fields
after_write =
    field (codes "a") (obj (field (codes "c") (int false 2) (field (codes "b") (int false 1) end)))
      end

written : set_path (int false 1) (codes "a" ∷ codes "b" ∷ []) before_write ≡ some after_write
unfolding set_path get Entries.put text_discrete
written = refl
