-- ===== src/Query/Upkeep.antt =====
-- How the query indexes are built and kept, mkdb/db/query/query_engine.py: `build_indexes`, `on_write`,
-- `on_delete`, `save_all`, `rebuild_index`, `discover_fields` and `_autodiscover_fields`. The schema is
-- the field names with what `queryable` says. What is written to the log and the configuration's own
-- file are not modelled; `text_of` is `str(v)`.
use mk_db.Base.{
  ℕ, Text, text_key, List, [], ◌∷◌, Option, none, some, Bool, true, false, Dict, Key, put, contains,
  ok, raise, if◌then◌else◌, query_syntax_error, overflow_error, os_error,
}
use mk_db.Base.Dicts
use mk_db.Base.Result.{Result}
use mk_db.Json.{Json, null, obj, Fields, end, field}
use mk_db.Json.Entries.{get}
use mk_db.Codec.{Codec}
use mk_db.Serializer.{deserialize_record}
use mk_db.Log
use mk_db.Index
use mk_db.Index.{Entry}
use mk_db.Disk.{Disk}
use mk_db.FullText
use mk_db.FullText.{FullText, add_text, remove_text}
use mk_db.Numeric
use mk_db.Numeric.{Number, Numeric, add_json, remove_json, add_value}
use mk_db.Query.Eval.{Engine}

-- `queryable`: `"full-text"` or `True`, `"numeric"`, any other value that is true, and none.
pub data Queryable : Type 0 where
  full_text numeric unknown not_queryable : Queryable

abbrev pub Schema : Type 0
Schema = Dict Text Queryable

module _ {A : Type 0} where
  -- A loop over the entries that changes the values.
  unfoldable map_values : (Text → A → A) → Dict Text A → Dict Text A
  map_values f [] = []
  map_values f ((k, a) ∷ m) = (k, f k a) ∷ map_values f m

  -- A loop that the first exception ends: `true`, with the entries from there on as they were.
  unfoldable map_until : (Text → A → Result A) → Dict Text A → Bool × Dict Text A
  map_until f [] = (false, [])
  map_until f ((k, a) ∷ m) =
      let (failed, rest) = map_until f m in
      elim (f k a) [ raise _ ↦ (true, (k, a) ∷ m) | ok b ↦ (failed, (k, b) ∷ rest) ]

  abbrev pub ok_or : A → Result A → A
  ok_or a (ok b) = b
  ok_or a (raise _) = a

-- `_autodiscover_fields`
unfoldable autodiscover_fields : Fields → Schema → Schema
autodiscover_fields end schema = schema
autodiscover_fields (field f v d) schema =
    autodiscover_fields d (if contains f schema then schema else put f not_queryable schema)

module _ (lower : Text → Text) (text_of : Json → Text) where
  unfoldable pub add_text_of : Text → Option Json → FullText → FullText
  add_text_of id none x = x
  add_text_of id (some v) x = add_text lower id (text_of v) x

  unfoldable remove_text_of : Text → Option Json → FullText → FullText
  remove_text_of id none x = x
  remove_text_of id (some v) x = remove_text lower id (text_of v) x

module _ {V : Type 0} ⦃e : Key V⦄ (n : Number V) where
  -- `except (ValueError, TypeError)`: such a value is passed over, and one that overflows is not.
  abbrev unless_overflow : Numeric V → Result (Numeric V) → Result (Numeric V)
  unless_overflow x (ok y) = ok y
  unless_overflow x (raise overflow_error) = raise overflow_error
  unless_overflow x (raise other) = ok x

  unfoldable add_number_of : Text → Option Json → Numeric V → Result (Numeric V)
  unfolding add_json
  add_number_of id none x = ok x
  add_number_of id (some v) x = unless_overflow x (add_json n id v x)

  unfoldable remove_number_of : Text → Option Json → Numeric V → Result (Numeric V)
  unfolding remove_json
  remove_number_of id none x = ok x
  remove_number_of id (some v) x = unless_overflow x (remove_json n id v x)

  -- `on_write`, the loops over the indexes.
  -- `true` where it raised; the indexes before it are changed then.
  unfoldable on_write : (Text → Text) → (Json → Text) → Text → Fields → Engine V → Bool × Engine V
  unfolding map_values add_text_of add_number_of get map_until
  on_write lower text_of id delta g =
      let (failed, numeric') = map_until (λ f x. add_number_of id (get f delta) x) g.numeric in
      (
        failed,
        record {
          full_text = map_values (λ f x. add_text_of lower text_of id (get f delta) x) g.full_text;
          numeric = numeric';
        },
      )

  unfoldable pub on_delete :
      (Text → Text) → (Json → Text) → Text → Fields → Engine V → Bool × Engine V
  unfolding map_values remove_text_of remove_number_of get map_until
  on_delete lower text_of id d g =
      let (failed, numeric') = map_until (λ f x. remove_number_of id (get f d) x) g.numeric in
      (
        failed,
        record {
          full_text = map_values (λ f x. remove_text_of lower text_of id (get f d) x) g.full_text;
          numeric = numeric';
        },
      )

  abbrev unless : {A : Type 0} → Bool → A → Result A
  unless true a = raise os_error
  unless false a = ok a

  -- `fails` says of which field the index cannot write its file; those behind it are not saved then.
  unfoldable pub save_all : (Text → Bool) → Codec → Engine V → Bool × Engine V
  unfolding map_until FullText.save Numeric.save
  save_all fails c g =
      let (failed, texts) = map_until (λ f x. unless (fails f) (FullText.save c x)) g.full_text in
      let (failed', numbers) = map_until (λ f x. unless (fails f) (Numeric.save n c x)) g.numeric in
      if failed
      then (true, record g { full_text = texts })
      else (failed', record { full_text = texts; numeric = numbers })

-- The dictionary on a line that can be read, with its id.
abbrev dict_with_id : Option Text × Json → Option Fields
dict_with_id (some rid, obj d) = some d
dict_with_id _ = none

abbrev dict_of : Option Text × Json → Option Fields
dict_of (rid, obj d) = some d
dict_of _ = none

-- The dictionary that the scan of `rebuild_index` reads for an id; `none` is an id that it skips.
unfoldable pub flat_at :
    (Option Text × Json → Option Fields) → Codec → Disk → Option Entry → Option Fields
flat_at pick c s none = none
flat_at pick c s (some at) = elim (Log.read c at.segment_seq at.offset at.size s.log) [
  | raise _ ↦ none
  | ok line ↦ pick (deserialize_record c line)
]

unfoldable pub flat_of : Codec → Disk → Text → Option Fields
flat_of c s id = flat_at dict_with_id c s (Index.get id s.index)

-- The value of the field, if it is there and is not null.
unfoldable pub backfill_value : Text → Option Fields → Option Json
unfolding get
backfill_value f none = none
backfill_value f (some d) = elim (get f d) [ none ↦ none | some null ↦ none | some v ↦ some v ]

-- The loop over the ids for each of the two kinds of index. A number is added as its text.
unfoldable pub backfill_text :
    (Text → Text) → (Json → Text) → Codec → Disk → Text → List Text → FullText → FullText
unfolding add_text_of backfill_value flat_of
backfill_text lower text_of c s f [] x = x
backfill_text lower text_of c s f (id ∷ ids) x =
    backfill_text lower text_of c s f ids
      (add_text_of lower text_of id (backfill_value f (flat_of c s id)) x)

module _ {V : Type 0} ⦃e : Key V⦄ (n : Number V) where
  abbrev add_parsed : Text → Option V → Numeric V → Numeric V
  add_parsed id none x = x
  add_parsed id (some v) x = add_value n id v x

  abbrev pub parsed : (Json → Text) → Option Json → Option V
  parsed text_of none = none
  parsed text_of (some v) = n.parse (text_of v)

  unfoldable backfill_numbers :
      (Json → Text) → Codec → Disk → Text → List Text → Numeric V → Numeric V
  unfolding backfill_value flat_of
  backfill_numbers text_of c s f [] x = x
  backfill_numbers text_of c s f (id ∷ ids) x =
      backfill_numbers text_of c s f ids
        (add_parsed id (parsed text_of (backfill_value f (flat_of c s id))) x)

  -- `rebuild_index` from an empty index; the file that there was is replaced by `save`.
  unfoldable rebuild_index :
      (Text → Text)
      → (Json → Text)
      → Codec
      → ℕ
      → Disk
      → Schema
      → Text
      → Engine V
      → Result (Engine V)
  unfolding backfill_text backfill_numbers
  rebuild_index lower text_of c threshold s schema f g = elim (Dicts.get f schema) [
    | some full_text ↦ ok (record g {
      full_text =
          put f
            (FullText.save c (
              backfill_text lower text_of c s f (Index.all_record_ids s.index)
                (FullText.init c threshold none)))
            g.full_text;
    })
    | some numeric ↦ ok (record g {
      numeric =
          put f
            (Numeric.save n c (
              backfill_numbers text_of c s f (Index.all_record_ids s.index)
                (Numeric.init n c threshold none)))
            g.numeric;
    })
    | some unknown ↦ raise query_syntax_error
    | some not_queryable ↦ raise query_syntax_error
    | none ↦ raise query_syntax_error
  ]

  -- Each queryable field with the index that its file gives; `files` is the file of a field.
  unfoldable load_indexes : Codec → ℕ → (Text → Option Text) → Schema → Engine V → Engine V
  load_indexes c threshold files [] g = g
  load_indexes c threshold files ((f, full_text) ∷ rest) g =
      load_indexes c threshold files rest
        (record g { full_text = put f (FullText.init c threshold (files f)) g.full_text })
  load_indexes c threshold files ((f, numeric) ∷ rest) g =
      load_indexes c threshold files rest
        (record g { numeric = put f (Numeric.init n c threshold (files f)) g.numeric })
  load_indexes c threshold files ((f, q) ∷ rest) g = load_indexes c threshold files rest g

  abbrev is_absent : Option Text → Bool
  is_absent none = true
  is_absent (some []) = true
  is_absent (some (x ∷ text)) = false

  -- A field of the schema is rebuilt whose file is not there or empty.
  unfoldable rebuild_missing :
      (Text → Text)
      → (Json → Text)
      → Codec
      → ℕ
      → (Text → Option Text)
      → Disk
      → Schema
      → Schema
      → Engine V
      → Engine V
  unfolding rebuild_index
  rebuild_missing lower text_of c threshold files s schema [] g = g
  rebuild_missing lower text_of c threshold files s schema ((f, q) ∷ rest) g =
      rebuild_missing lower text_of c threshold files s schema rest (
        if is_absent (files f)
        then ok_or g (rebuild_index lower text_of c threshold s schema f g)
        else g)

  -- `build_indexes`, up to the discovery of fields.
  unfoldable build_indexes :
      (Text → Text) → (Json → Text) → Codec → ℕ → (Text → Option Text) → Disk → Schema → Engine V
  unfolding load_indexes rebuild_missing
  build_indexes lower text_of c threshold files s schema =
      rebuild_missing lower text_of c threshold files s schema schema
        (load_indexes c threshold files schema (record { full_text = []; numeric = [] }))

-- `discover_fields`, and the schema after it: every field of every record that can be read.
unfoldable discover_in : Codec → Disk → List Text → Schema → Schema
unfolding autodiscover_fields
discover_in c s [] schema = schema
discover_in c s (id ∷ ids) schema =
    discover_in c s ids (elim (flat_at dict_of c s (Index.get id s.index)) [
      | none ↦ schema
      | some d ↦ autodiscover_fields d schema
    ])

unfoldable discover_fields : Codec → Disk → Schema → Schema
unfolding discover_in
discover_fields c s schema = discover_in c s (Index.all_record_ids s.index) schema

module _ {V : Type 0} ⦃e : Key V⦄ (n : Number V) where
  -- `on_write` with the schema, which takes up new fields if it is configured to.
  unfoldable pub write_hook :
      Bool
      → (Text → Text)
      → (Json → Text)
      → Text
      → Fields
      → Schema × Engine V
      → Bool × Schema × Engine V
  unfolding on_write autodiscover_fields
  write_hook auto_discover lower text_of id delta (schema, g) =
      let (failed, g') = on_write n lower text_of id delta g in
      (failed, if auto_discover then autodiscover_fields delta schema else schema, g')

  -- `build_indexes` to its end.
  unfoldable pub boot :
      Bool
      → (Text → Text)
      → (Json → Text)
      → Codec
      → ℕ
      → (Text → Option Text)
      → Disk
      → Schema
      → Schema × Engine V
  unfolding build_indexes discover_fields
  boot auto_discover lower text_of c threshold files s schema = (
    if auto_discover then discover_fields c s schema else schema,
    build_indexes n lower text_of c threshold files s schema,
  )
