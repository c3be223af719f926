-- ===== src/Builder/Requests.antt =====
-- What the engine of mkdb/db/query/query_engine.py reads from a query that the builder of
-- client/mkdb_client/query_builder.py has built.
use mk_db.Base.{arith, false, ℕ, zero, suc, ◌≡◌, Text, text_discrete, [], ◌∷◌, Option, none, some}
use mk_db.Json.{Json, null, int, str, obj}
use mk_db.Json.Entries.{get}
use mk_db.Builder.{Q, build}
use mk_db.Query.Pages.{request_of}

-- The value that the engine finds for a text, and for a count.
abbrev sent_text : Option Text → Json
sent_text none = null
sent_text (some []) = null
sent_text (some (c ∷ s)) = str (c ∷ s)

abbrev sent_count : Option ℕ → Json
sent_count none = null
sent_count (some zero) = null
sent_count (some (suc n)) = int false (suc n)

-- The engine takes from a built query its filter, its order, its limit and its offset. A limit or an
-- offset of 0 and an empty order are not sent, so for them it takes what it takes for none.
request_of-build :
    (q : Q)
    → request_of (build q) ≡ record {
      filter = obj q.filter;
      sort = sent_text q.sort_key;
      limit = sent_count q.limit_count;
      offset = sent_count q.offset_count;
    }
unfolding request_of build get text_discrete
request_of-build q = ground arith
