-- ===== src/Numeric.antt =====
-- The sorted index of one numeric field, mkdb/db/query/numeric_index.py: the class `NumericIndex`. Its
-- file is the text at `path`, with `none` where there is no file. Floats are a parameter: a type with
-- its order and with `float` and `str`.
pub mod Ranges
pub mod Updates
use mk_db.Base.{
  ℕ, ◌-◌, ◌≡◌, Text, List, [], ◌∷◌, ◌++◌, Option, none, some, Bool, true, false, Dict, Key, put,
  contains, keys, ltb, if◌then◌else◌, ◌&&◌, length, lines, take, drop, suc, test, ok, raise,
  or_raise, ◌>>=◌, value_error, overflow_error,
}
use mk_db.Base.Dicts
use mk_db.Base.Result.{Result}
use mk_db.Base.Sets.{add, union}
use mk_db.Codec.{Codec}
use mk_db.Json.{Json}
use mk_db.IndexFile.{index_line, parse_line}
use mk_db.Postings.{ids_or_empty, add_at, union_at, discard_at}

pub record Number (V : Type 0) : Type 0 where
  -- `x < y`
  pub lt : V → V → Bool
  -- `float(s)` of a text; `none` is a `ValueError`.
  pub parse : Text → Option V
  -- `f"{x}"`
  pub print : V → Text
  -- `float(v)` of a value of a record; `none` is a `ValueError` or a `TypeError`.
  pub of_json : Json → Option V
  -- `float(v)` is an `OverflowError`, as it is for an `int` that is too large.
  pub overflows : Json → Bool

module _ {V : Type 0} ⦃e : Key V⦄ (n : Number V) where
  -- How many values stand first with the property.
  unfoldable pub prefix : (V → Bool) → List V → ℕ
  prefix p [] = 0
  prefix p (x ∷ xs) = let rest = prefix p xs in if p x then suc rest else 0

  -- `bisect.bisect_left` and `bisect.bisect_right` on a sorted list.
  unfoldable pub bisect_left : List V → V → ℕ
  unfolding prefix
  bisect_left xs v = prefix (λ x. n.lt x v) xs

  unfoldable pub bisect_right : List V → V → ℕ
  unfolding prefix
  bisect_right xs v = prefix (λ x. if n.lt v x then false else true) xs

  -- `bisect.insort`
  unfoldable pub insort : V → List V → List V
  insort v [] = v ∷ []
  insort v (x ∷ xs) = let rest = insort v xs in if n.lt v x then v ∷ x ∷ xs else x ∷ rest

  -- The value is taken out at the place that `bisect_left` gives, if it stands there.
  unfoldable pub pop_value : V → List V → List V
  pop_value v [] = []
  pop_value v (x ∷ xs) =
      let rest = pop_value v xs in
      if n.lt x v then x ∷ rest else if test (e.dec x v) then xs else x ∷ xs

  -- `sorted(keys)`
  unfoldable sort_values : List V → List V
  unfolding insort
  sort_values [] = []
  sort_values (v ∷ vs) = insort v (sort_values vs)

pub record Numeric (V : Type 0) : Type 0 where
  pub map : Dict V (List Text)
  pub values : List V
  pub in_ram : Bool
  pub ram_threshold : ℕ
  -- Used where `in_ram` is false.
  pub write_buf : Dict V (List Text)
  pub remove_buf : List (V × Text)
  pub file : Option Text

module _ {V : Type 0} ⦃e : Key V⦄ (n : Number V) where
  unfoldable pub load_lines : List Text → Dict V (List Text) → Dict V (List Text)
  load_lines [] m = m
  load_lines (raw ∷ raws) m = elim (parse_line raw) [
    | none ↦ load_lines raws m
    | some (val, ids) ↦ elim (n.parse val) [
      | none ↦ load_lines raws m
      | some v ↦ load_lines raws (put v ids m)
    ]
  ]

  -- `_load_disk_map`
  unfoldable pub load_disk_map : Option Text → Dict V (List Text) × List V
  unfolding load_lines sort_values
  load_disk_map none = ([], [])
  load_disk_map (some text) = let m = load_lines (lines text) [] in (m, sort_values n (keys m))

  unfoldable file_line : V → Option (List Text) → Text
  unfolding index_line
  file_line v none = []
  file_line v (some []) = []
  file_line v (some (id ∷ ids)) = index_line (n.print v) (id ∷ ids)

  unfoldable pub file_lines : List V → Dict V (List Text) → Text
  unfolding file_line
  file_lines [] m = []
  file_lines (v ∷ vs) m = file_line v (Dicts.get v m) ++ file_lines vs m

  -- `_write_file`
  unfoldable pub write_file : Dict V (List Text) → List V → Numeric V → Numeric V
  unfolding file_lines
  write_file m vs x = record x { file = some (file_lines vs m) }

  abbrev file_size : Codec → Option Text → ℕ
  file_size c none = 0
  file_size c (some text) = length (c.encode text)

  unfoldable pub apply_threshold : Codec → Numeric V → Numeric V
  apply_threshold c x =
      if ltb 0 x.ram_threshold && ltb x.ram_threshold (file_size c x.file)
      then record x { map = []; values = []; in_ram = false }
      else x

  -- `__init__` with `load`: a file that is there is read.
  unfoldable pub init : Codec → ℕ → Option Text → Numeric V
  unfolding load_disk_map apply_threshold
  init c threshold none = record {
    map = [];
    values = [];
    in_ram = true;
    ram_threshold = threshold;
    write_buf = [];
    remove_buf = [];
    file = none;
  }
  init c threshold (some text) =
      let (m, vs) = load_disk_map (some text) in
      apply_threshold c (record {
        map = m;
        values = vs;
        in_ram = true;
        ram_threshold = threshold;
        write_buf = [];
        remove_buf = [];
        file = some text;
      })

  -- The values with one that is new to the map.
  unfoldable pub values_with : V → Dict V (List Text) → List V → List V
  unfolding insort
  values_with v m vs = if contains v m then vs else insort n v vs

  unfoldable pub union_all :
      Dict V (List Text) → Dict V (List Text) × List V → Dict V (List Text) × List V
  unfolding values_with
  union_all [] p = p
  union_all ((v, ids) ∷ buf) (m, vs) = union_all buf (union_at v ids m, values_with v m vs)

  -- An id taken out; a value whose last id it was is taken out of the list too.
  unfoldable pub values_without : V → Text → Dict V (List Text) → List V → List V
  unfolding pop_value
  values_without v id m vs = elim (Dicts.get v m) [
    | none ↦ vs
    | some ids ↦ elim ids [
      | [] ↦ vs
      | j ∷ js ↦ if contains v (discard_at v id m) then vs else pop_value n v vs
    ]
  ]

  unfoldable discard_each :
      List (V × Text) → Dict V (List Text) × List V → Dict V (List Text) × List V
  unfolding values_without
  discard_each [] p = p
  discard_each ((v, id) ∷ buf) (m, vs) =
      discard_each buf (discard_at v id m, values_without v id m vs)

  abbrev no_pending : Dict V (List Text) → List (V × Text) → Bool
  no_pending [] [] = true
  no_pending _ _ = false

  -- `_flush_pending`
  unfoldable pub flush_pending : Numeric V → Numeric V
  unfolding write_file union_all discard_each load_disk_map
  flush_pending x =
      if no_pending x.write_buf x.remove_buf
      then x
      else (let (m, vs) =
            discard_each x.remove_buf (union_all x.write_buf (load_disk_map x.file)) in
          record (write_file m vs x) { write_buf = []; remove_buf = [] })

  unfoldable pub save : Codec → Numeric V → Numeric V
  unfolding write_file apply_threshold flush_pending
  save c x = if x.in_ram then apply_threshold c (write_file x.map x.values x) else flush_pending x

  unfoldable pub add_value : Text → V → Numeric V → Numeric V
  unfolding values_with
  add_value id v x =
      if x.in_ram
      then record x { map = add_at v id x.map; values = values_with v x.map x.values }
      else record x { write_buf = add_at v id x.write_buf }

  unfoldable pub remove_value : Text → V → Numeric V → Numeric V
  unfolding values_without
  remove_value id v x =
      if x.in_ram
      then record x { map = discard_at v id x.map; values = values_without v id x.map x.values }
      else record x { remove_buf = x.remove_buf ++ ((v, id) ∷ []) }

  -- `add` and `remove`, with the conversion to a float that may fail.
  unfoldable pub add_json : Text → Json → Numeric V → Result (Numeric V)
  add_json id j x =
      if n.overflows j
      then raise overflow_error
      else do v ← or_raise value_error (n.of_json j); ok (add_value id v x)

  unfoldable pub remove_json : Text → Json → Numeric V → Result (Numeric V)
  remove_json id j x =
      if n.overflows j
      then raise overflow_error
      else do v ← or_raise value_error (n.of_json j); ok (remove_value id v x)

  -- `exact_query`, and the index after it.
  unfoldable pub exact_query : V → Numeric V → List Text × Numeric V
  unfolding flush_pending
  exact_query v x =
      if x.in_ram
      then (ids_or_empty (Dicts.get v x.map), x)
      else (let flushed = flush_pending x in
          (ids_or_empty (Dicts.get v (load_disk_map flushed.file).0), flushed))

  unfoldable pub lo_index : Option V → Bool → List V → ℕ
  unfolding bisect_left bisect_right
  lo_index none inclusive vs = 0
  lo_index (some v) inclusive vs = if inclusive then bisect_left n vs v else bisect_right n vs v

  unfoldable pub hi_index : Option V → Bool → List V → ℕ
  unfolding bisect_left bisect_right
  hi_index none inclusive vs = length vs
  hi_index (some v) inclusive vs = if inclusive then bisect_right n vs v else bisect_left n vs v

  unfoldable pub ids_of_values : List V → Dict V (List Text) → List Text
  ids_of_values [] m = []
  ids_of_values (v ∷ vs) m = union (ids_or_empty (Dicts.get v m)) (ids_of_values vs m)

  -- `_range_from`: the ids of a slice of the values.
  unfoldable pub range_from :
      Option V → Option V → Bool → Bool → Dict V (List Text) → List V → List Text
  unfolding lo_index hi_index ids_of_values
  range_from lo hi lo_inclusive hi_inclusive m vs =
      ids_of_values
        (take (hi_index hi hi_inclusive vs - lo_index lo lo_inclusive vs)
          (drop (lo_index lo lo_inclusive vs) vs))
        m

  -- `range_query`, and the index after it.
  unfoldable pub range_query : Option V → Option V → Bool → Bool → Numeric V → List Text × Numeric V
  unfolding range_from flush_pending
  range_query lo hi lo_inclusive hi_inclusive x =
      if x.in_ram
      then (range_from lo hi lo_inclusive hi_inclusive x.map x.values, x)
      else (let flushed = flush_pending x in
          let (m, vs) = load_disk_map flushed.file in
          (range_from lo hi lo_inclusive hi_inclusive m vs, flushed))
