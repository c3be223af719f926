-- ===== src/EventLog.antt =====
-- The ring of events of the dashboard, mkdb/server/event_log.py. Each call is one step under the
-- lock.
pub mod Recent
use mk_db.Base.{
  ℕ, ◌+◌, Text, List, [], ◌∷◌, ◌++◌, Bool, true, false, ltb, if◌then◌else◌, length, take, drop,
  test, text_discrete,
}

pub record Event : Type 0 where
  pub ts : ℕ
  pub level : Text
  pub source : Text
  pub message : Text

-- `_MAX_EVENTS`
abbrev pub max_events : ℕ
max_events = 200

-- The newest event is the last.
unfoldable pub emit : ℕ → Text → Text → Text → List Event → List Event
emit now level source message events =
    let all =
      events ++ (record { ts = now; level = level; source = source; message = message } ∷ []) in
    if ltb max_events (length all) then drop 1 all else all

unfoldable pub reverse : List Event → List Event
reverse [] = []
reverse (e ∷ es) = reverse es ++ (e ∷ [])

unfoldable pub of_level : Text → List Event → List Event
of_level level [] = []
of_level level (e ∷ es) =
    let rest = of_level level es in if test (text_discrete e.level level) then e ∷ rest else rest

-- `max(1, min(limit, _MAX_EVENTS))` of a limit that is not negative.
unfoldable pub clamp : ℕ → ℕ
clamp limit =
    let low = if ltb max_events limit then max_events else limit in if ltb low 1 then 1 else low

-- `if level`: the empty level is no filter.
unfoldable pub filtered : Text → List Event → List Event
filtered [] es = es
filtered (c ∷ level) es = of_level (c ∷ level) es

unfoldable pub get_events : ℕ → Text → List Event → List Event
unfolding reverse filtered of_level clamp
get_events limit level events = take (clamp limit) (filtered level (reverse events))
