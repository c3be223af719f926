-- ===== src/Tests/Queues.antt =====
-- Tests of the write queue and of the ring of events.
use mk_db.Base.{
  ◌≡◌, refl, ite, Text, List, [], ◌∷◌, some, false, codes, text_key, text_discrete, arith, ok,
  or_else, take,
}
use mk_db.Base.Dicts
use mk_db.Json.{Fields, end}
use mk_db.Json.Entries
use mk_db.Json.Entries.{update}
use mk_db.WriteQueue.{Queue, direct, write_of, enqueue}
use mk_db.WriteQueue.Owed.{owed, IsValid, get-owed-enqueue}
use mk_db.EventLog.{Event, reverse, of_level, clamp, get_events, max_events}
use mk_db.EventLog.Recent.{emit_all, last_of, get_events-emit_all}
use mk_db.Tests.Samples.{sample}

-- One delta waits for "a", and one task of another operation is on the queue.
abbrev pub waiting : Queue
waiting = record {
  debounce_window = 5;
  max_pending = 2;
  queue = direct (codes "compact") end ∷ [];
  pending = (codes "a", sample) ∷ [];
  timers = (codes "a", 1) ∷ [];
  dead_letter = [];
  stopped = false;
}

pub sample-HasDistinctKeys : Entries.HasDistinctKeys sample
unfolding Entries.get
sample-HasDistinctKeys = (refl, tt)

found-sample : (j : Text) (d : Fields) → Dicts.get j waiting.pending ≡ some d → sample ≡ d
unfolding Dicts.get
found-sample j d found = ground arith

pub waiting-IsValid : IsValid waiting
unfolding Dicts.get
waiting-IsValid = record {
  distinct = (refl, tt);
  distinct_timers = (refl, tt);
  timed = λ j. ground arith;
  dicts = λ j d found. rw (← found-sample j d found) sample-HasDistinctKeys;
  bounded = omega arith;
  few_dead = omega arith;
}

get-owed-enqueue_example :
    (q' : Queue) × (enqueue 3 (write_of (some (codes "b")) sample) waiting ≡ ok q')
    × IsValid q'
    × (Entries.get (codes "a") (owed (codes "b") q' end)
        ≡ ite
            (text_discrete (codes "b") (codes "b"))
            (or_else
              (Entries.get (codes "a") sample)
              (Entries.get (codes "a") (owed (codes "b") waiting end)))
            (Entries.get (codes "a") (owed (codes "b") waiting end)))
unfolding Dicts.get text_discrete
get-owed-enqueue_example =
    get-owed-enqueue 3 (codes "b") (codes "b") (codes "a") sample end waiting waiting-IsValid
      sample-HasDistinctKeys refl

abbrev two_events : List Event
two_events =
    record { ts = 1; level = codes "info"; source = codes "db"; message = codes "one" }
    ∷ record { ts = 2; level = codes "error"; source = codes "db"; message = codes "two" }
    ∷ []

get_events-emit_all_example :
    (get_events 1 [] (emit_all two_events []) ≡ take (clamp 1) (reverse two_events))
    × (get_events 1 (codes "info") (emit_all two_events [])
        ≡ take (clamp 1) (of_level (codes "info") (reverse (last_of max_events two_events))))
get_events-emit_all_example = get_events-emit_all 1 b'i' (codes "nfo") two_events
