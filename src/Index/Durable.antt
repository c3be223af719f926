-- ===== src/Index/Durable.antt =====
-- The invariant of the index: its file reads back as its map, and every operation keeps it so.
use mk_db.Base.{
  ◌≡◌, refl, ◌∙◌, Text, List, [], ◌∷◌, ◌++◌, Option, none, some, true, Dict, put, remove, text_key,
  text_discrete, ok, arith, IsLine, All, unlines, unlines-append, HasDistinctKeys,
  put-HasDistinctKeys, remove-HasDistinctKeys, strip, if_pos, if_neg, Option-cases, inl, inr,
}
use mk_db.Base.Dicts
use mk_db.Index
use mk_db.Index.{
  Entry, Index, entry_line, entry_lines, load, load_lines, append_line, load_stripped,
}
use mk_db.Index.Format.{IsPlainId, IsPlainSegment}
use mk_db.Index.Replay.{
  load-entry_line, load-tombstone, IsLine-entry_line, IsLine-tombstone, load_lines-append,
}

-- Every entry can be written as a line.
abbrev pub ArePlain : Dict Text Entry → Type 0
ArePlain [] = Unit {0}
ArePlain ((id, e) ∷ m) = IsPlainId id × IsPlainSegment e.segment_seq × ArePlain m

abbrev pub file_text : Option Text → Text
file_text none = []
file_text (some t) = t

-- The file reads back as the map.
pub record IsDurable (s : Index) : Type 0 where
  pub written : List Text
  pub text : file_text s.file ≡ unlines written
  pub each : All IsLine written
  pub loads : load_lines written [] ≡ ok s.map
  pub distinct : HasDistinctKeys s.map
  pub plain : ArePlain s.map

All-append : (ls ms : List Text) → All IsLine ls → All IsLine ms → All IsLine (ls ++ ms)
All-append [] ms h k = k
All-append (l ∷ ls) ms h k = (h.0, All-append ls ms h.1 k)

put-ArePlain :
    (id : Text) (e : Entry) (m : Dict Text Entry)
    → IsPlainId id
    → IsPlainSegment e.segment_seq
    → ArePlain m
    → ArePlain (put id e m)
unfolding put
put-ArePlain id e [] p q h = (p, q, tt)
put-ArePlain id e ((j, f) ∷ m) p q h = elim (text_discrete j id) [
  | yes same ↦ rw (if_pos _ same) (h.0, q, h.2)
  | no differ ↦ rw (if_neg _ differ) (h.0, h.1, put-ArePlain id e m p q h.2)
]

remove-ArePlain : (id : Text) (m : Dict Text Entry) → ArePlain m → ArePlain (remove id m)
unfolding remove
remove-ArePlain id [] h = tt
remove-ArePlain id ((j, f) ∷ m) h = elim (text_discrete j id) [
  | yes same ↦ rw (if_pos _ same) (remove-ArePlain id m h.2)
  | no differ ↦ rw (if_neg _ differ) (h.0, h.1, remove-ArePlain id m h.2)
]

plain_at :
    (id : Text) (e : Entry) (m : Dict Text Entry)
    → ArePlain m
    → Dicts.get id m ≡ some e
    → IsPlainId id × IsPlainSegment e.segment_seq
unfolding Dicts.get
plain_at id e [] h g = absurd (ground arith)
plain_at id e ((j, f) ∷ m) h g = elim (text_discrete j id) [
  | yes same ↦ let found : f ≡ e = ground arith in (rw (← same) h.0, rw (← found) h.1)
  | no differ ↦ plain_at id e m h.2 (ground arith)
]

-- One more line at the end of the file.
appended :
    (s : Index) (l : Text) (m : Dict Text Entry)
    → IsDurable s
    → IsLine l
    → load_stripped (strip l) s.map ≡ ok m
    → HasDistinctKeys m
    → ArePlain m
    → IsDurable (record { map = m; dirty = true; file = append_line l s.file })
appended s l m d isline step distinct plain = record {
  written = d.written ++ (l ∷ []);
  text = text_append s.file d.text;
  each = All-append d.written (l ∷ []) d.each (isline, tt);
  loads = load_lines-append d.written (l ∷ []) [] ∙ (unfold load_lines in rw (d.loads, step) refl);
  distinct = distinct;
  plain = plain;
}
  where
    text_append :
        (f : Option Text)
        → file_text f ≡ unlines d.written
        → file_text (append_line l f) ≡ unlines (d.written ++ (l ∷ []))
    text_append none e =
        rw (unlines-append d.written (l ∷ []), ← e) (unfold append_line unlines in refl)
    text_append (some t) e =
        rw (unlines-append d.written (l ∷ []), ← e) (unfold append_line unlines in refl)

pub set-IsDurable :
    (id : Text) (e : Entry) (s : Index)
    → IsDurable s
    → IsPlainId id
    → IsPlainSegment e.segment_seq
    → IsDurable (Index.set id e s)
unfolding Index.set
set-IsDurable id e s d p q =
    appended s (entry_line id e) (put id e s.map) d (IsLine-entry_line id e p q)
      (load-entry_line id e s.map p q) (put-HasDistinctKeys id e s.map d.distinct)
      (put-ArePlain id e s.map p q d.plain)

pub delete-IsDurable : (id : Text) (s : Index) → IsDurable s → IsDurable (Index.delete id s)
unfolding Index.delete
delete-IsDurable id s d = elim (Option-cases (Dicts.get id s.map)) [
  | inl absent ↦ rw (absent, Index.delete) d
  | inr (e, found) ↦
      let (p, q) = plain_at id e s.map d.plain found in
      rw (found, Index.delete)
        (appended s (b'!' ∷ entry_line id e) (remove id s.map) d (IsLine-tombstone id e p q)
          (load-tombstone id e s.map p q) (remove-HasDistinctKeys id s.map d.distinct)
          (remove-ArePlain id s.map d.plain))
]
