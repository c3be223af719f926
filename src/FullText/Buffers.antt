-- ===== src/FullText/Buffers.antt =====
-- What the buffers of an index that is not in memory make of the file.
use mk_db.Base.{
  ◌≡◌, Text, List, [], ◌∷◌, true, false, ◌&&◌, ◌||◌, not, text_key, text_discrete, test, arith,
  put-HasDistinctKeys, HasDistinctKeys, none,
}
use mk_db.Base.Dicts
use mk_db.Base.Sets.{elem}
use mk_db.Postings.{add_at, union_at, minus_at, has, has-union_at, has-minus_at}
use mk_db.Tokenizer.{tokenize}
use mk_db.FullText.{
  Stems, FullText, union_all, minus_all, merge_buffers, add_all, add_text, remove_text,
}
use mk_db.FullText.Words.{has-add_all}

has-cons :
    (s stem j : Text) (ids : List Text) (buf : Stems)
    → Dicts.get s buf ≡ none
    → has stem j ((s, ids) ∷ buf) ≡ ((test (text_discrete s stem) && elem j ids) || has stem j buf)
unfolding has Dicts.get
has-cons s stem j ids buf h = elim (text_discrete s stem) [
  | yes same ↦
      let absent : Dicts.get stem buf ≡ none = rw (← same) h in
      unfold elem in ground (arith, absent)
  | no other ↦ ground arith
]

has-union_all :
    (stem j : Text) (buf m : Stems)
    → HasDistinctKeys buf
    → has stem j (union_all buf m) ≡ (has stem j m || has stem j buf)
unfolding union_all
has-union_all stem j [] m d = unfold has Dicts.get elem in ground arith
has-union_all stem j ((s, ids) ∷ buf) m d = ground (
  arith,
  has-union_all stem j buf (union_at s ids m) d.1,
  has-union_at s stem ids j m,
  has-cons s stem j ids buf,
  d.0,
)

has-minus_all :
    (stem j : Text) (buf m : Stems)
    → HasDistinctKeys buf
    → has stem j (minus_all buf m) ≡ (has stem j m && not (has stem j buf))
unfolding minus_all
has-minus_all stem j [] m d = unfold has Dicts.get elem in ground arith
has-minus_all stem j ((s, ids) ∷ buf) m d = ground (
  arith,
  has-minus_all stem j buf (minus_at s ids m) d.1,
  has-minus_at s stem ids j m,
  has-cons s stem j ids buf,
  d.0,
)

has-merge_buffers :
    (stem j : Text) (adds removes m : Stems)
    → HasDistinctKeys adds
    → HasDistinctKeys removes
    → has stem j (merge_buffers adds removes m)
      ≡ ((has stem j m || has stem j adds) && not (has stem j removes))
unfolding merge_buffers
has-merge_buffers stem j adds removes m d e =
    ground (arith, has-minus_all stem j removes (union_all adds m) e, has-union_all stem j adds m d)

add_all-HasDistinctKeys :
    (stems : List Text) (id : Text) (m : Stems)
    → HasDistinctKeys m
    → HasDistinctKeys (add_all stems id m)
unfolding add_all add_at
add_all-HasDistinctKeys [] id m d = d
add_all-HasDistinctKeys (s ∷ stems) id m d =
    add_all-HasDistinctKeys stems id (add_at s id m) (put-HasDistinctKeys s _ m d)

buffered :
    (lower : Text → Text) (id old new : Text) (x : FullText)
    → x.in_ram ≡ false
    → add_text lower id new (remove_text lower id old x) ≡ record x {
      add_buf = add_all (tokenize lower new) id x.add_buf;
      remove_buf = add_all (tokenize lower old) id x.remove_buf;
    }
unfolding add_text remove_text
buffered lower id old new x h = ground arith

-- In an index that is not in memory, an id whose old text is removed and whose new text is added
-- before the next flush is found by none of the old text's words after it, those included that the
-- new text has too: the flush makes the additions first.
pub has-merge_update :
    (lower : Text → Text) (id old new stem : Text) (x : FullText) (m : Stems)
    → x.in_ram ≡ false
    → HasDistinctKeys x.add_buf
    → HasDistinctKeys x.remove_buf
    → elem stem (tokenize lower old) ≡ true
    → has stem id (
        merge_buffers
          (add_text lower id new (remove_text lower id old x)).add_buf
          (add_text lower id new (remove_text lower id old x)).remove_buf
          m)
      ≡ false
has-merge_update lower id old new stem x m h d e word = rw (buffered lower id old new x h) (
    ground (
      arith,
      has-merge_buffers stem id (add_all (tokenize lower new) id x.add_buf)
          (add_all (tokenize lower old) id x.remove_buf) m
          (add_all-HasDistinctKeys (tokenize lower new) id x.add_buf d)
          (add_all-HasDistinctKeys (tokenize lower old) id x.remove_buf e),
      has-add_all stem id id (tokenize lower old) x.remove_buf,
    ))
