-- ===== src/Metrics/Balance.antt =====
-- The counts of a store are the sums of those of its two transports, mkdb/server/coms/metrics.py.
use mathlib.Core.Path.{subst}
use mk_db.Base.{
  contains, ℕ, ◌+◌, ◌≡◌, ◌≢◌, ◌⊎◌, refl, sym, ◌∙◌, ap, arith, ite, Text, text_key, text_discrete,
  codes, [], ◌∷◌, Dict, put, get-put, test, ◌||◌, Bool-cases, inl, inr,
}
use mk_db.Base.Dicts
use mk_db.Metrics.{
  Op, Counts, count, bump, bump_op, field_of, StoreMetrics, store_default, change_at, transport_of,
  counts_or_default, record_in, Request, slow_in, SlowEntry, limited_in, client_default,
  transport_default, Metrics, record_request, get_store, record_slow_query, record_rate_limited,
  reset_store_metrics,
}

count-bump :
    (k j : Text) (n : ℕ) (d : Counts)
    → count j (bump k n d) ≡ count j d + ite (text_discrete k j) n 0
unfolding count bump
count-bump k j n d = elim (text_discrete k j) [
  | yes same ↦ ground (arith, get-put k j (count k d + n) d, ap (λ x. count x d) same)
  | no other ↦ ground (arith, get-put k j (count k d + n) d)
]

-- What a request adds to the count.
abbrev pub added : Op → ℕ → ℕ → Text → ℕ
added op bytes_in bytes_out k =
    ite (text_discrete (field_of op) k) 1 0
    + ite (text_discrete (codes "bytes_in") k) bytes_in 0
    + ite (text_discrete (codes "bytes_out") k) bytes_out 0

count-bump_op :
    (op : Op) (i o : ℕ) (k : Text) (d : Counts)
    → count k (bump_op op i o d) ≡ count k d + added op i o k
unfolding bump_op
count-bump_op op i o k d = ground (
  arith,
  count-bump (codes "bytes_out") k o (bump (codes "bytes_in") i (bump (field_of op) 1 d)),
  count-bump (codes "bytes_in") k i (bump (field_of op) 1 d),
  count-bump (field_of op) k 1 d,
)

-- The count of a transport.
abbrev at_transport : Text → Text → StoreMetrics → ℕ
at_transport t k sm = count k (counts_or_default (Dicts.get t sm.transport))

-- The count, with 0 for that of the slow queries, which have no transport.
abbrev unless_slow : Text → ℕ → ℕ
unless_slow k n = ite (text_discrete k (codes "slow_queries")) 0 n

-- A count of the store is the sum of those of the two transports.
abbrev IsBalanced : StoreMetrics → Type 0
IsBalanced sm =
    (k : Text)
    → unless_slow k (count k sm.counts)
      ≡ unless_slow k (at_transport (codes "http") k sm + at_transport (codes "socket") k sm)

balance_at :
    (sm : StoreMetrics) (k : Text)
    → IsBalanced sm
    → k ≢ codes "slow_queries"
    → count k sm.counts ≡ at_transport (codes "http") k sm + at_transport (codes "socket") k sm
balance_at sm k b apart = ground (arith, b k)

balance_of :
    (sm : StoreMetrics)
    → ((k : Text)
        → k ≢ codes "slow_queries"
        → count k sm.counts ≡ at_transport (codes "http") k sm + at_transport (codes "socket") k sm)
    → IsBalanced sm
balance_of sm h k = elim (text_discrete k (codes "slow_queries")) [
  | yes same ↦ ground arith
  | no other ↦ ground (arith, h k other)
]

counts-change_at :
    (u t k : Text) (f : Counts → Counts) (a : ℕ) (d : Dict Text Counts)
    → ((c : Counts) → count k (f c) ≡ count k c + a)
    → count k (counts_or_default (Dicts.get t (change_at u f d)))
      ≡ count k (counts_or_default (Dicts.get t d)) + ite (text_discrete u t) a 0
unfolding change_at
counts-change_at u t k f a d h = elim (text_discrete u t) [
  | yes same ↦ ground (
    arith,
    get-put u t (f (counts_or_default (Dicts.get u d))) d,
    h (counts_or_default (Dicts.get u d)),
    ap (λ x. Dicts.get x d) same,
  )
  | no other ↦ ground (arith, get-put u t (f (counts_or_default (Dicts.get u d))) d)
]

transport_of-cases :
    (t : Text) → (transport_of t ≡ codes "http") ⊎ (transport_of t ≡ codes "socket")
unfolding transport_of
transport_of-cases t =
    elim (Bool-cases
      (test (text_discrete t (codes "http")) || test (text_discrete t (codes "socket")))) [
        | inl known ↦ elim (text_discrete t (codes "http")) [
          | yes is_http ↦ inl (rw known is_http)
          | no other ↦ inr (rw known (ground arith))
        ]
        | inr unknown ↦ inl (rw unknown refl)
      ]

http-ne-socket : codes "http" ≢ codes "socket"
http-ne-socket h = absurd (cc)

-- What is added to the one or the other is added to the sum.
sum-change_at :
    (t k : Text) (f : Counts → Counts) (a : ℕ) (d : Dict Text Counts)
    → ((c : Counts) → count k (f c) ≡ count k c + a)
    → count k (counts_or_default (Dicts.get (codes "http") (change_at (transport_of t) f d)))
        + count k (counts_or_default (Dicts.get (codes "socket") (change_at (transport_of t) f d)))
      ≡ count k (counts_or_default (Dicts.get (codes "http") d))
        + count k (counts_or_default (Dicts.get (codes "socket") d))
        + a
sum-change_at t k f a d h = elim (transport_of-cases t) [
  | inl is_http ↦ rw is_http (
      ground (
        arith,
        counts-change_at (codes "http") (codes "http") k f a d h,
        counts-change_at (codes "http") (codes "socket") k f a d h,
        http-ne-socket,
      ))
  | inr is_socket ↦ rw is_socket (
      ground (
        arith,
        counts-change_at (codes "socket") (codes "http") k f a d h,
        counts-change_at (codes "socket") (codes "socket") k f a d h,
        http-ne-socket,
      ))
]

record_in-IsBalanced :
    (now : ℕ) (r : Request) (sm : StoreMetrics) → IsBalanced sm → IsBalanced (record_in now r sm)
unfolding record_in
record_in-IsBalanced now r sm b = balance_of (record_in now r sm) (λ k apart.
    count-bump_op r.op r.bytes_in r.bytes_out k sm.counts
    ∙ ground (
      arith,
      balance_at sm k b apart,
      sum-change_at r.transport k (bump_op r.op r.bytes_in r.bytes_out)
          (added r.op r.bytes_in r.bytes_out k) sm.transport
          (count-bump_op r.op r.bytes_in r.bytes_out k),
    ))

limited_in-IsBalanced :
    (ip t : Text) (sm : StoreMetrics) → IsBalanced sm → IsBalanced (limited_in ip t sm)
unfolding limited_in
limited_in-IsBalanced ip t sm b = balance_of (limited_in ip t sm) (λ k apart.
    count-bump (codes "rate_limited") k 1 sm.counts
    ∙ ground (
      arith,
      balance_at sm k b apart,
      sum-change_at t k (bump (codes "rate_limited") 1)
          (ite (text_discrete (codes "rate_limited") k) 1 0) sm.transport
          (count-bump (codes "rate_limited") k 1),
    ))

slow_in-IsBalanced :
    (entry : SlowEntry) (sm : StoreMetrics) → IsBalanced sm → IsBalanced (slow_in entry sm)
unfolding slow_in
slow_in-IsBalanced entry sm b = balance_of (slow_in entry sm) (λ k apart.
    count-bump (codes "slow_queries") k 1 sm.counts
    ∙ elim (text_discrete (codes "slow_queries") k) [
      | yes same ↦ absurd (apart (sym same))
      | no other ↦ ground (arith, balance_at sm k b apart)
    ])

-- Every count is 0.
abbrev IsZero : Counts → Type 0
IsZero [] = Unit
IsZero ((k, n) ∷ d) = (n ≡ 0) × IsZero d

count-IsZero : (k : Text) (d : Counts) → IsZero d → count k d ≡ 0
unfolding count Dicts.get
count-IsZero k [] z = refl
count-IsZero k ((j, n) ∷ d) z = elim (text_discrete j k) [
  | yes same ↦ ground arith
  | no other ↦ ground (arith, count-IsZero k d z.1)
]

client_default-IsZero : IsZero client_default
unfolding client_default
client_default-IsZero = (refl, (refl, (refl, (refl, (refl, (refl, (refl, (refl, tt))))))))

store_default-IsZero : (now : ℕ) → IsZero (store_default now).counts
unfolding store_default client_default
store_default-IsZero now =
    (refl, (refl, (refl, (refl, (refl, (refl, (refl, (refl, (refl, tt)))))))))

store_default-IsBalanced : (now : ℕ) → IsBalanced (store_default now)
store_default-IsBalanced now = balance_of (store_default now) (λ k apart.
    let http : at_transport (codes "http") k (store_default now) ≡ count k client_default =
      unfold store_default transport_default Dicts.get text_discrete in refl in
    let socket : at_transport (codes "socket") k (store_default now) ≡ count k client_default =
      unfold store_default transport_default Dicts.get text_discrete in refl in
    rw (http, socket)
      (ground (
        arith,
        count-IsZero k client_default client_default-IsZero,
        count-IsZero k (store_default now).counts (store_default-IsZero now),
      )))

-- For every store, at whatever time it is asked for.
abbrev pub AllBalanced : Metrics → Type 0
AllBalanced m = (now : ℕ) (name : Text) → IsBalanced (get_store now name m)

get_store-put :
    (now : ℕ) (name other : Text) (sm : StoreMetrics) (m : Metrics)
    → get_store now other (put name sm m)
      ≡ ite (text_discrete name other) sm (get_store now other m)
unfolding get_store
get_store-put now name other sm m = elim (text_discrete name other) [
  | yes same ↦ ground (arith, get-put name other sm m)
  | no different ↦ ground (arith, get-put name other sm m)
]

ite-IsBalanced :
    {A : Type 0} (d : Dec A) (sm sn : StoreMetrics)
    → IsBalanced sm
    → IsBalanced sn
    → IsBalanced (ite d sm sn)
ite-IsBalanced (yes _) sm sn b c = b
ite-IsBalanced (no _) sm sn b c = c

put-AllBalanced :
    (name : Text) (sm : StoreMetrics) (m : Metrics)
    → IsBalanced sm
    → AllBalanced m
    → AllBalanced (put name sm m)
put-AllBalanced name sm m b all now other =
    subst IsBalanced (sym (get_store-put now name other sm m))
      (ite-IsBalanced (text_discrete name other) sm (get_store now other m) b (all now other))

pub no_store-AllBalanced : AllBalanced []
unfolding get_store Dicts.get
no_store-AllBalanced now name = store_default-IsBalanced now

record_request-AllBalanced :
    (now : ℕ) (name : Text) (r : Request) (m : Metrics)
    → AllBalanced m
    → AllBalanced (record_request now name r m)
unfolding record_request
record_request-AllBalanced now [] r m all = all
record_request-AllBalanced now (c ∷ name) r m all =
    put-AllBalanced (c ∷ name) (record_in now r (get_store now (c ∷ name) m)) m
      (record_in-IsBalanced now r (get_store now (c ∷ name) m) (all now (c ∷ name))) all

record_slow_query-AllBalanced :
    (now : ℕ) (name : Text) (entry : SlowEntry) (m : Metrics)
    → AllBalanced m
    → AllBalanced (record_slow_query now name entry m)
unfolding record_slow_query
record_slow_query-AllBalanced now [] entry m all = all
record_slow_query-AllBalanced now (c ∷ name) entry m all =
    put-AllBalanced (c ∷ name) (slow_in entry (get_store now (c ∷ name) m)) m
      (slow_in-IsBalanced entry (get_store now (c ∷ name) m) (all now (c ∷ name))) all

record_rate_limited-AllBalanced :
    (now : ℕ) (name ip t : Text) (m : Metrics)
    → AllBalanced m
    → AllBalanced (record_rate_limited now name ip t m)
unfolding record_rate_limited
record_rate_limited-AllBalanced now [] ip t m all = all
record_rate_limited-AllBalanced now (c ∷ name) ip t m all =
    put-AllBalanced (c ∷ name) (limited_in ip t (get_store now (c ∷ name) m)) m
      (limited_in-IsBalanced ip t (get_store now (c ∷ name) m) (all now (c ∷ name))) all

reset_store_metrics-AllBalanced :
    (now : ℕ) (name : Text) (m : Metrics)
    → AllBalanced m
    → AllBalanced (reset_store_metrics now name m)
unfolding reset_store_metrics
reset_store_metrics-AllBalanced now name m all = elim (Bool-cases (contains name m)) [
  | inl there ↦
      subst AllBalanced (rw there refl)
        (put-AllBalanced name (store_default now) m (store_default-IsBalanced now) all)
  | inr gone ↦ subst AllBalanced (rw gone refl) all
]

-- For every store each count, of requests of a kind, of bytes or of blocked requests, is the sum of
-- those of its two transports, before any request and after each: a request that is recorded, a slow
-- query, a blocked request, and a reset. The count of slow queries has no parts.
pub metrics-AllBalanced :
    (now : ℕ) (name ip t : Text) (r : Request) (entry : SlowEntry) (m : Metrics)
    → AllBalanced m
    → AllBalanced []
      × (AllBalanced (record_request now name r m)
          × (AllBalanced (record_slow_query now name entry m)
              × (AllBalanced (record_rate_limited now name ip t m)
                  × AllBalanced (reset_store_metrics now name m))))
metrics-AllBalanced now name ip t r entry m all = (
  no_store-AllBalanced,
  (
    record_request-AllBalanced now name r m all,
    (
      record_slow_query-AllBalanced now name entry m all,
      (
        record_rate_limited-AllBalanced now name ip t m all,
        reset_store_metrics-AllBalanced now name m all,
      ),
    ),
  ),
)
