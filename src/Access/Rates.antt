-- ===== src/Access/Rates.antt =====
-- The rate limiter of the HTTP data plane, mkdb/server/coms/http_handlers.py: `_check_rate_limit`. A time
-- is a number of ticks, and `second` is how many one second has. The log file and the answer 429 are not
-- part of it.
use mathlib.Core.List.{append_assoc, append-nil}
use mk_db.Base.{
  ℕ, ◌+◌, ◌≤◌, ◌≡◌, refl, sym, ◌∙◌, ap, Text, text_key, List, [], ◌∷◌, ◌++◌, Option, none, some,
  Bool, Dict, put, length, ltb, if◌then◌else◌, arith, get-put_self, length-append,
}
use mk_db.Base.Dicts

-- `[t for t in ts if t > cutoff]`
unfoldable pub recent : ℕ → ℕ → List ℕ → List ℕ
recent second now [] = []
recent second now (t ∷ ts) =
    let rest = recent second now ts in if ltb now (t + second) then t ∷ rest else rest

abbrev times_or_none : Option (List ℕ) → List ℕ
times_or_none none = []
times_or_none (some ts) = ts

-- The times of one client after a request, and the tracker.
unfoldable track : ℕ → ℕ → Text → Dict Text (List ℕ) → List ℕ × Dict Text (List ℕ)
unfolding recent
track second now ip tracker =
    let ts = recent second now (times_or_none (Dicts.get ip tracker)) ++ now ∷ [] in
    (ts, put ip ts tracker)

-- The global limit for one request: whether it is exceeded, and the tracker.
unfoldable pub exceeds : ℕ → ℕ → ℕ → Text → Dict Text (List ℕ) → Bool × Dict Text (List ℕ)
unfolding track
exceeds second limit now ip tracker =
    let (ts, tracker') = track second now ip tracker in (ltb limit (length ts), tracker')

-- Many requests of one client, at these times.
unfoldable pub requests : ℕ → ℕ → Text → List ℕ → Dict Text (List ℕ) → Dict Text (List ℕ)
unfolding exceeds
requests second limit ip [] tracker = tracker
requests second limit ip (now ∷ nows) tracker =
    requests second limit ip nows (exceeds second limit now ip tracker).1

-- The times do not go back, and none is before `from`.
abbrev IsClock : ℕ → List ℕ → Type 0
IsClock from [] = Unit {0}
IsClock from (t ∷ ts) = (from ≤ t) × IsClock t ts

recent-append :
    (second now : ℕ) (xs ys : List ℕ)
    → recent second now (xs ++ ys) ≡ recent second now xs ++ recent second now ys
unfolding recent
recent-append second now [] ys = refl
recent-append second now (x ∷ xs) ys = ground (arith, recent-append second now xs ys)

-- What is too old stays so.
recent-recent :
    (second now later : ℕ) (xs : List ℕ)
    → now ≤ later
    → recent second later (recent second now xs) ≡ recent second later xs
unfolding recent
recent-recent second now later [] h = refl
recent-recent second now later (x ∷ xs) h = ground (arith, recent-recent second now later xs)

-- The tracker of a client knows of the past what matters from `from` on.
abbrev Knows : ℕ → ℕ → Text → List ℕ → Dict Text (List ℕ) → Type 0
Knows second from ip past tracker =
    (now : ℕ)
    → from ≤ now
    → recent second now (times_or_none (Dicts.get ip tracker)) ≡ recent second now past

exceeds-Knows :
    (second limit from now : ℕ) (ip : Text) (past : List ℕ) (tracker : Dict Text (List ℕ))
    → from ≤ now
    → Knows second from ip past tracker
    → Knows second now ip (past ++ now ∷ []) (exceeds second limit now ip tracker).1
unfolding exceeds track
exceeds-Knows second limit from now ip past tracker h k later after =
    let ts = times_or_none (Dicts.get ip tracker) in
    ap (λ o. recent second later (times_or_none o))
      (get-put_self ip (recent second now ts ++ now ∷ []) tracker)
    ∙ (recent-append second later (recent second now ts) (now ∷ [])
        ∙ (ap (λ xs. xs ++ recent second later (now ∷ []))
              (recent-recent second now later ts after ∙ k later (omega arith))
            ∙ sym (recent-append second later past (now ∷ []))))

requests-Knows :
    (second limit from : ℕ) (ip : Text) (past nows : List ℕ) (tracker : Dict Text (List ℕ))
    (now : ℕ)
    → IsClock from (nows ++ now ∷ [])
    → Knows second from ip past tracker
    → recent second now (times_or_none (Dicts.get ip (requests second limit ip nows tracker)))
      ≡ recent second now (past ++ nows)
unfolding requests
requests-Knows second limit from ip past [] tracker now (h, c) k =
    k now h ∙ ap (recent second now) (sym (append-nil past))
requests-Knows second limit from ip past (t ∷ nows) tracker now (h, c) k =
    requests-Knows second limit t ip (past ++ t ∷ []) nows (exceeds second limit t ip tracker).1 now
      c (exceeds-Knows second limit from t ip past tracker h k)
    ∙ ap (recent second now) (append_assoc past (t ∷ []) nows)

-- Let a client of which the tracker knows nothing make requests at times that do not go back. The last
-- one is refused exactly if, with it, the client has made more requests within one second than the limit
-- allows, those that were refused included.
pub exceeds-requests :
    (second limit : ℕ) (ip : Text) (nows : List ℕ) (now : ℕ) (tracker : Dict Text (List ℕ))
    → IsClock 0 (nows ++ now ∷ [])
    → Dicts.get ip tracker ≡ none
    → (exceeds second limit now ip (requests second limit ip nows tracker)).0
      ≡ ltb limit (length (recent second now nows) + 1)
unfolding exceeds track
exceeds-requests second limit ip nows now tracker clock new =
    let known = requests-Knows second limit 0 ip [] nows tracker now clock (λ t h. rw new refl) in
    ap (λ ts. ltb limit (length (ts ++ now ∷ []))) known
    ∙ ap (ltb limit) (length-append (recent second now nows) (now ∷ []))
