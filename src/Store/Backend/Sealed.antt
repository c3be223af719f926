-- ===== src/Store/Backend/Sealed.antt =====
-- Every segment but the active one has the parity of its bytes, however many writes and compactions the
-- write queue's worker handles without a failure.
use mk_db.Base.{
  ℕ, ◌≡◌, ◌≢◌, refl, sym, ◌∙◌, Text, text_key, List, [], ◌∷◌, Option, none, some, Bool, false, Key,
  ok, raise, arith, ◌==◌, Bool-cases, inl, inr,
}
use mk_db.Base.Result.{Result}
use mk_db.Json.{Json, null, Fields}
use mk_db.Codec.{Codec}
use mk_db.Log.{Log}
use mk_db.Numeric.{Number}
use mk_db.Disk.{Disk, write_to_storage}
use mk_db.Compactor.{compact_segment, compact_ids, swap_in}
use mk_db.Parity.{ReedSolo}
use mk_db.Query.Upkeep.{write_hook, save_all}
use mk_db.WriteQueue.{Task, flushed, direct, sentinel, Loop, Turn, run}
use mk_db.WriteQueue.Invariant.{AreKept, run-keeps}
use mk_db.Store.Backend.{
  Backend, Faults, seal, seal_unless, on_rollover, written, after_write, handle_write, compacted,
  compact_value, handle_compact, handlers,
}
use mk_db.Store.Backend.Files.{
  AreSealed, SameFiles, Placed, same-IsSealed, put_segment-SameFiles, generate-AreSealed,
  write-Placed,
}

-- `reedsolo` is installed and takes `nsym`, and the parity files can be written.
abbrev pub NeverFails : Faults → Type 0
NeverFails k = (n : ℕ) (s : Disk) → k.generate n s ≡ none

-- What the handlers of the write queue keep: the parity files are those of the store's segments, and
-- every segment but the active one is sealed.
module _ {V : Type 0} where
  abbrev pub IsSafe : ReedSolo → Backend V → Type 0
  IsSafe rs b =
      (b.parity.service ≡ b.disk.log.service)
      × AreSealed rs b.parity b.disk.log.active_segment b.disk.log.files

  -- The end of a write: the old segment is sealed where there is a new one.
  rollover-IsSafe :
      ⦃e : Key V⦄ (num : Number V) (c : Codec) (rs : ReedSolo) (k : Faults) (l : Log)
      (b : Backend V)
      → NeverFails k
      → b.parity.service ≡ l.service
      → AreSealed rs b.parity l.active_segment l.files
      → Placed b.disk.log l
      → (on_rollover num c rs k l.active_segment b).0 ≡ false
      → IsSafe rs (on_rollover num c rs k l.active_segment b).1
  unfolding on_rollover seal seal_unless
  rollover-IsSafe num c rs f l b never service sealed k passes =
      elim (Bool-cases (b.disk.log.active_segment == l.active_segment)) [
        | inl stays ↦ rw stays (
          service ∙ sym k.service,
          λ n other.
              same-IsSealed rs b.parity n b.disk.log.files l.files
                (rw service (k.others n (ground arith) (ground arith))) (sealed n (ground arith)),
        )
        | inr rolls ↦ elim (Bool-cases (save_all num f.save c b.engine).0) [
          | inl failed ↦ absurd (cc (rw (rolls, failed) at passes))
          | inr saved ↦
              rw (rolls, saved, never l.active_segment b.disk)
                (
                  service ∙ sym k.service,
                  generate-AreSealed rs b.parity l.active_segment b.disk.log.active_segment
                      b.disk.log.files
                      (λ n other differ.
                        same-IsSealed rs b.parity n b.disk.log.files l.files
                          (rw service (k.others n differ (λ e. other (sym e))))
                          (sealed n (λ e. differ (sym e)))),
                )
        ]
      ]

  module _ ⦃e : Key V⦄ (num : Number V) (c : Codec) (rs : ReedSolo) (k : Faults) where
    -- The rest of a write, unless the query indexes refuse a value.
    written-IsSafe :
        (auto_discover : Bool) (lower : Text → Text) (text_of : Json → Text) (id : Text)
        (delta : Fields) (x : (Text × ℕ × ℕ) × Disk) (b : Backend V)
        → NeverFails k
        → b.parity.service ≡ b.disk.log.service
        → AreSealed rs b.parity b.disk.log.active_segment b.disk.log.files
        → Placed x.1.log b.disk.log
        → let (failed, b') =
            written num c rs k auto_discover lower text_of id delta b.disk.log.active_segment x b in
          failed ≡ false → IsSafe rs b'
    unfolding written
    written-IsSafe auto_discover lower text_of id delta x b never service sealed placed p =
        elim (Bool-cases
          (write_hook num auto_discover lower text_of id delta (b.schema, b.engine)).0) [
            | inl raises ↦ absurd (cc (rw raises at p))
            | inr passed ↦ rw passed (
                rollover-IsSafe num c rs k b.disk.log _ never service sealed placed
                  (rw passed at p))
          ]

    handle_write-IsSafe :
        (auto_discover : Bool) (lower : Text → Text) (text_of : Json → Text) (t : Task)
        (b : Backend V)
        → NeverFails k
        → IsSafe rs b
        → (handle_write num c rs k auto_discover lower text_of t b).0 ≡ false
        → IsSafe rs (handle_write num c rs k auto_discover lower text_of t b).1
    unfolding handle_write
    handle_write-IsSafe auto_discover lower text_of (flushed id delta ts) b never (service, sealed)
          passes =
        by_result (write_to_storage c id delta b.disk) (write-Placed c id delta b.disk) passes
      where
        by_result :
            (r : Result ((Text × ℕ × ℕ) × Disk))
            → ((x : (Text × ℕ × ℕ) × Disk) → r ≡ ok x → Placed x.1.log b.disk.log)
            → (after_write num c rs k auto_discover lower text_of id delta r b).0 ≡ false
            → IsSafe rs (after_write num c rs k auto_discover lower text_of id delta r b).1
        by_result (raise x) f p = unfold after_write in (service, sealed)
        by_result (ok x) f p =
            unfold after_write in
            written-IsSafe auto_discover lower text_of id delta x b never service sealed (f x refl)
              p
    handle_write-IsSafe auto_discover lower text_of (direct op delta) b never h passes = h
    handle_write-IsSafe auto_discover lower text_of sentinel b never h passes = h

    -- What a compaction keeps.
    record Compacted (m : ℕ) (s' s : Disk) : Type 0 where
      service : s'.log.service ≡ s.log.service
      active : s'.log.active_segment ≡ s.log.active_segment
      others : (n : ℕ) → m ≢ n → SameFiles s.log.service n s'.log.files s.log.files

    compact_ids-Compacted :
        (m : ℕ) (ids : List Text) (s : Disk) → Compacted m (compact_ids c m ids s) s
    unfolding compact_ids swap_in
    compact_ids-Compacted m [] s = record {
      service = refl;
      active = refl;
      others = λ n h. (refl, refl);
    }
    compact_ids-Compacted m (id ∷ ids) s = record {
      service = refl;
      active = refl;
      others = λ n h. put_segment-SameFiles s.log.service m n _ s.log.files h;
    }

    compact_segment-Compacted : (m : ℕ) (s : Disk) → Compacted m (compact_segment c m s) s
    unfolding compact_segment
    compact_segment-Compacted m s = elim (Bool-cases (m == s.log.active_segment)) [
      | inl active ↦
          rw active (record { service = refl; active = refl; others = λ n h. (refl, refl) })
      | inr sealed ↦ rw sealed (compact_ids-Compacted m _ s)
    ]

    compacted-IsSafe :
        (r : Result ℕ) (b : Backend V)
        → NeverFails k
        → IsSafe rs b
        → IsSafe rs (compacted num c rs k r b).1
    unfolding compacted seal seal_unless
    compacted-IsSafe (raise x) b never h = h
    compacted-IsSafe (ok m) b never (service, sealed) =
        let kept = compact_segment-Compacted m b.disk in
        rw (never m (compact_segment c m b.disk)) (
          service ∙ sym kept.service,
          generate-AreSealed rs b.parity m _ (compact_segment c m b.disk).log.files
              (λ n other differ.
                same-IsSealed rs b.parity n (compact_segment c m b.disk).log.files b.disk.log.files
                  (rw service (kept.others n differ))
                  (sealed n (λ e. other (e ∙ sym kept.active)))),
        )

    compact_value-IsSafe :
        (to_segment : Json → Result ℕ) (v : Option Json) (b : Backend V)
        → NeverFails k
        → IsSafe rs b
        → IsSafe rs (compact_value num c rs k to_segment v b).1
    unfolding compact_value
    compact_value-IsSafe to_segment none b never h = h
    compact_value-IsSafe to_segment (some null) b never h = h
    compact_value-IsSafe to_segment (some v) b never h = compacted-IsSafe (to_segment v) b never h

    handle_compact-IsSafe :
        (to_segment : Json → Result ℕ) (t : Task) (b : Backend V)
        → NeverFails k
        → IsSafe rs b
        → IsSafe rs (handle_compact num c rs k to_segment t b).1
    unfolding handle_compact
    handle_compact-IsSafe to_segment (flushed id delta ts) b never h =
        compact_value-IsSafe to_segment _ b never h
    handle_compact-IsSafe to_segment (direct op delta) b never h =
        compact_value-IsSafe to_segment _ b never h
    handle_compact-IsSafe to_segment sentinel b never h = h

    handlers-AreKept :
        (auto_discover : Bool) (lower : Text → Text) (text_of : Json → Text)
        (to_segment : Json → Result ℕ)
        → NeverFails k
        → AreKept (IsSafe rs) (handlers num c rs k auto_discover lower text_of to_segment)
    handlers-AreKept auto_discover lower text_of to_segment never = (
      λ t b h passes. handle_write-IsSafe auto_discover lower text_of t b never h passes,
      (λ t b h passes. handle_compact-IsSafe to_segment t b never h, tt),
    )

    -- Where `generate` raises nothing: let the write queue's worker and its callers take any turns, with the
    -- two handlers of the store. If every segment but the active one had the parity of its bytes, it has so
    -- afterwards, whatever was written, rolled over to new segments, put into blobs or compacted, as long as
    -- there are no dead letters, that is, no task has failed.
    pub run-IsSafe :
        (auto_discover : Bool) (lower : Text → Text) (text_of : Json → Text)
        (to_segment : Json → Result ℕ) (turns : List Turn) (w w' : Loop) (b b' : Backend V)
        → NeverFails k
        → IsSafe rs b
        → run (handlers num c rs k auto_discover lower text_of to_segment) turns w b ≡ ok (w', b')
        → w'.queue.dead_letter ≡ []
        → IsSafe rs b'
    run-IsSafe auto_discover lower text_of to_segment turns w w' b b' never h ran clean =
        run-keeps (IsSafe rs) (handlers num c rs k auto_discover lower text_of to_segment) turns w
          w' b b' (handlers-AreKept auto_discover lower text_of to_segment never) (λ start. h) ran
          clean
