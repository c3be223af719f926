-- ===== src/EventLog/Recent.antt =====
-- The ring holds the most recent events, and the dashboard gets them newest first.
use mathlib.Core.List.{append-nil, append_assoc}
use mk_db.Base.{
  ℕ, zero, suc, ◌+◌, ◌-◌, ◌≤◌, ◌≡◌, refl, sym, ◌∙◌, ap, Text, List, [], ◌∷◌, ◌++◌, ltb, length,
  take, drop, arith, length-append, ltb→lt, ltb-ge, Bool-cases, inl, inr, take-append_of_le,
}
use mk_db.EventLog.{Event, max_events, emit, reverse, of_level, clamp, filtered, get_events}

-- The events of a session, oldest first.
abbrev pub emit_all : List Event → List Event → List Event
emit_all [] ring = ring
emit_all (e ∷ es) ring = emit_all es (emit e.ts e.level e.source e.message ring)

-- The last `n` of a list.
unfoldable pub last_of : ℕ → List Event → List Event
last_of n es = drop (length es - n) es

length-drop : (n : ℕ) (es : List Event) → length (drop n es) ≡ length es - n
length-drop zero es = omega arith
length-drop (suc n) [] = omega arith
length-drop (suc n) (e ∷ es) = ground (arith, length-drop n es)

drop_one-drop : (n : ℕ) (es : List Event) → drop 1 (drop n es) ≡ drop (suc n) es
drop_one-drop zero es = refl
drop_one-drop (suc n) [] = refl
drop_one-drop (suc n) (e ∷ es) = drop_one-drop n es

drop-append_of_le :
    (n : ℕ) (es fs : List Event) → n ≤ length es → drop n (es ++ fs) ≡ drop n es ++ fs
drop-append_of_le zero es fs h = refl
drop-append_of_le (suc n) [] fs h = absurd (omega arith)
drop-append_of_le (suc n) (e ∷ es) fs h = drop-append_of_le n es fs (omega arith)

same_drop : (m n : ℕ) (es : List Event) → m ≡ n → drop m es ≡ drop n es
same_drop m n es h = ap (λ k. drop k es) h

emit-last_of :
    (e : Event) (es : List Event)
    → emit e.ts e.level e.source e.message (last_of max_events es)
      ≡ last_of max_events (es ++ (e ∷ []))
unfolding emit last_of
emit-last_of e es =
    let k : ℕ = length es - 200 in
    let here : drop k es ++ (e ∷ []) ≡ drop k (es ++ (e ∷ [])) =
      sym (drop-append_of_le k es (e ∷ []) (omega arith)) in
    let size : length (drop k (es ++ (e ∷ []))) ≡ (length es + 1) - k =
      length-drop k (es ++ (e ∷ [])) ∙ ap (λ x. x - k) (length-append es (e ∷ [])) in
    rw here (elim (Bool-cases (ltb 200 (length (drop k (es ++ (e ∷ [])))))) [
      | inl full ↦ rw full (
          drop_one-drop k (es ++ (e ∷ []))
          ∙ same_drop (suc k) (length (es ++ (e ∷ [])) - 200) (es ++ (e ∷ [])) (
              omega (
                arith,
                size,
                length-append es (e ∷ []),
                ltb→lt 200 (length (drop k (es ++ (e ∷ [])))) full,
              )))
      | inr room ↦ rw room (
          same_drop k (length (es ++ (e ∷ [])) - 200) (es ++ (e ∷ [])) (
            omega (
              arith,
              size,
              length-append es (e ∷ []),
              ltb-ge 200 (length (drop k (es ++ (e ∷ [])))) room,
            )))
    ])

emit_all-last_of :
    (es before : List Event)
    → emit_all es (last_of max_events before) ≡ last_of max_events (before ++ es)
emit_all-last_of [] before = rw (append-nil before) refl
emit_all-last_of (e ∷ es) before =
    rw (emit-last_of e before)
      (emit_all-last_of es (before ++ (e ∷ [])) ∙ rw (append_assoc before (e ∷ []) es) refl)

reverse-drop :
    (k : ℕ) (es : List Event) → (rest : List Event) × (reverse es ≡ reverse (drop k es) ++ rest)
unfolding reverse
reverse-drop zero es = ([], sym (append-nil (reverse es)))
reverse-drop (suc k) [] = ([], refl)
reverse-drop (suc k) (e ∷ es) =
    let (rest, h) = reverse-drop k es in
    (rest ++ (e ∷ []), ap (λ x. x ++ (e ∷ [])) h ∙ append_assoc (reverse (drop k es)) rest (e ∷ []))

length-reverse : (es : List Event) → length (reverse es) ≡ length es
unfolding reverse
length-reverse [] = refl
length-reverse (e ∷ es) = omega (arith, length-append (reverse es) (e ∷ []), length-reverse es)

clamp-le : (limit : ℕ) → clamp limit ≤ 200
unfolding clamp
clamp-le limit = ground arith

take-reverse_last :
    (m : ℕ) (es : List Event)
    → m ≤ 200
    → take m (reverse (last_of max_events es)) ≡ take m (reverse es)
unfolding last_of
take-reverse_last m es h = elim (Bool-cases (ltb 200 (length es))) [
  | inl more ↦
      let (rest, e) = reverse-drop (length es - 200) es in
      rw e (
        sym (
          take-append_of_le m (reverse (drop (length es - 200) es)) rest (
            omega (
              arith,
              length-reverse (drop (length es - 200) es),
              length-drop (length es - 200) es,
              ltb→lt 200 (length es) more,
            ))))
  | inr few ↦
      let none_dropped : length es - 200 ≡ 0 = omega (arith, ltb-ge 200 (length es) few) in
      rw none_dropped refl
]

-- From an empty ring, whatever was emitted: `get_events` returns the most recent events, newest
-- first, as many as the limit allows, at least one and at most 200. With a level it looks for
-- it among the last 200 events only.
pub get_events-emit_all :
    (limit c : ℕ) (level : Text) (es : List Event)
    → (get_events limit [] (emit_all es []) ≡ take (clamp limit) (reverse es))
      × (get_events limit (c ∷ level) (emit_all es [])
          ≡ take (clamp limit) (of_level (c ∷ level) (reverse (last_of max_events es))))
unfolding get_events filtered
get_events-emit_all limit c level es =
    let ring : emit_all es [] ≡ last_of max_events es = start ∙ emit_all-last_of es [] in
    rw ring (take-reverse_last (clamp limit) es (clamp-le limit), refl)
  where
    start : emit_all es [] ≡ emit_all es (last_of max_events [])
    start = unfold last_of in refl
