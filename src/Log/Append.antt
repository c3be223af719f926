-- ===== src/Log/Append.antt =====
-- A line that was appended is read back, and stays readable.
use mathlib.Core.List.{append-nil}
use mk_db.Base.{
  ℕ, ◌+◌, ◌≤◌, ◌≡◌, ◌≢◌, refl, sym, ◌∙◌, ap, Text, [], ◌∷◌, ◌++◌, Option, none, some, Dict, put,
  text_key, text_discrete, show_03d, int-show_03d, length, take, drop, take-length, drop-append,
  take-drop-append, length-append, ok, codes, arith, get-put, show_03d-cons,
}
use mk_db.Base.Dicts
use mk_db.Codec.{Codec, Bytes, IsUtf8}
use mk_db.Log.{
  Log, append, read, read_slice, segment_name, open_append, roll_if_full, rollover, active_bytes,
  content, rstrip_newlines, keep_unless_last_newline, strip_prefix,
}

-- The segment of a number is no blob.
strip_prefix-show_03d : (n : ℕ) → strip_prefix (codes "blobs/") (show_03d n) ≡ none
unfolding strip_prefix
strip_prefix-show_03d n = let (c, s, e, lo, hi) = show_03d-cons n in rw e (ground arith)

get-open_append :
    (name other : Text) (files : Dict Text Bytes) (b : Bytes)
    → Dicts.get name files ≡ some b
    → Dicts.get name (open_append other files) ≡ some b
unfolding open_append
get-open_append name other files b h = ground (arith, get-put other name [] files)

-- A roll to the next segment leaves the files that are there.
get-roll_if_full :
    (name : Text) (l : Log) (b : Bytes)
    → Dicts.get name l.files ≡ some b
    → Dicts.get name (roll_if_full l).files ≡ some b
unfolding roll_if_full rollover
get-roll_if_full name l b h =
    ground (arith, get-open_append name (segment_name l.service (l.active_segment + 1)) l.files b)

service-roll_if_full : (l : Log) → (roll_if_full l).service ≡ l.service
unfolding roll_if_full rollover
service-roll_if_full l = ground arith

pub read-segment :
    (c : Codec) (n o size : ℕ) (l : Log)
    → read c (show_03d n) o size l
      ≡ read_slice c o size (Dicts.get (segment_name l.service n) l.files)
unfolding read
read-segment c n o size l = rw (strip_prefix-show_03d n, read, int-show_03d n) refl

-- The files after `append`, before a roll.
grown : Codec → Text → Log → Log
grown c line l = record l {
  files =
      put (segment_name l.service l.active_segment) (active_bytes l ++ c.encode (line ++ (10 ∷ [])))
        l.files;
}

append-log :
    (c : Codec) (line : Text) (l : Log) → (append c line l).1 ≡ roll_if_full (grown c line l)
unfolding append grown
append-log c line l = refl

get-append :
    (c : Codec) (line : Text) (l : Log)
    → Dicts.get (segment_name l.service l.active_segment) (append c line l).1.files
      ≡ some (active_bytes l ++ c.encode (line ++ (10 ∷ [])))
get-append c line l = rw append-log (
    get-roll_if_full (segment_name l.service l.active_segment) (grown c line l) _
      (unfold grown in ground (arith, get-put name name bytes l.files)))
  where
    name : Text
    name = segment_name l.service l.active_segment

    bytes : Bytes
    bytes = active_bytes l ++ c.encode (line ++ (10 ∷ []))

service-append : (c : Codec) (line : Text) (l : Log) → (append c line l).1.service ≡ l.service
service-append c line l =
    rw append-log (service-roll_if_full (grown c line l) ∙ (unfold grown in refl))

rstrip_newlines-append :
    (s : Text) (c : ℕ) → c ≢ 10 → rstrip_newlines ((s ++ (c ∷ [])) ++ (10 ∷ [])) ≡ s ++ (c ∷ [])
unfolding rstrip_newlines
rstrip_newlines-append [] c h = unfold keep_unless_last_newline in ground arith
rstrip_newlines-append (d ∷ []) c h =
    rw (rstrip_newlines-append [] c h) (unfold keep_unless_last_newline in refl)
rstrip_newlines-append (d ∷ e ∷ s) c h =
    rw (rstrip_newlines-append (e ∷ s) c h) (unfold keep_unless_last_newline in refl)

append-place :
    (c : Codec) (line : Text) (l : Log)
    → (append c line l).0
      ≡ (show_03d l.active_segment, length (active_bytes l), length (c.encode (line ++ (10 ∷ []))))
unfolding append
append-place c line l = refl

pub read_slice-of :
    (c : Codec) (offset size : ℕ) (bytes : Bytes) (line : Text)
    → c.decode (take size (drop offset bytes)) ≡ some line
    → read_slice c offset size (some bytes) ≡ ok (rstrip_newlines line)
unfolding read_slice
read_slice-of c offset size bytes line h = rw (h, read_slice) refl

-- If UTF-8 decodes what it encoded, the slice that `append` reports holds the line that it wrote,
-- also if the segment was rolled over after it: `read` gives the line back, provided that its
-- last character is no "\n".
pub read-append :
    (c : Codec) (s : Text) (last : ℕ) (l : Log)
    → IsUtf8 c
    → last ≢ 10
    → read c
        (append c (s ++ (last ∷ [])) l).0.0
        (append c (s ++ (last ∷ [])) l).0.1
        (append c (s ++ (last ∷ [])) l).0.2
        (append c (s ++ (last ∷ [])) l).1
      ≡ ok (s ++ (last ∷ []))
read-append c s last l u h =
    let line : Text = s ++ (last ∷ []) in
    let encoded : Bytes = c.encode (line ++ (10 ∷ [])) in
    let old : Bytes = active_bytes l in
    let slice : take (length encoded) (drop (length old) (old ++ encoded)) ≡ encoded =
      rw (drop-append old encoded) (take-length encoded) in
    rw (append-place c line l) (
      read-segment c l.active_segment (length old) (length encoded) (append c line l).1
      ∙ rw (service-append c line l, get-append c line l)
          (read_slice-of c (length old) (length encoded) (old ++ encoded) (line ++ (10 ∷ []))
              (rw slice (u.decode-encode (line ++ (10 ∷ []))))
            ∙ ap ok (rstrip_newlines-append s last h)))

read_slice-more :
    (c : Codec) (offset size : ℕ) (bytes more : Bytes)
    → offset + size ≤ length bytes
    → read_slice c offset size (some (bytes ++ more)) ≡ read_slice c offset size (some bytes)
unfolding read_slice
read_slice-more c offset size bytes more h = rw (take-drop-append size offset bytes more h) refl

-- The segment `n` holds the slice.
pub record Holds (l : Log) (n offset size : ℕ) : Type 0 where
  pub bytes : Bytes
  pub file : Dicts.get (segment_name l.service n) l.files ≡ some bytes
  pub inside : offset + size ≤ length bytes

-- A file after `append` goes on from what it was.
get-append_old :
    (c : Codec) (line : Text) (l : Log) (name : Text) (b : Bytes)
    → Dicts.get name l.files ≡ some b
    → (more : Bytes) × (Dicts.get name (append c line l).1.files ≡ some (b ++ more))
get-append_old c line l name b h =
    let active = segment_name l.service l.active_segment in
    elim (text_discrete active name) [
      | yes same ↦
          let here : Dicts.get active l.files ≡ some b = rw same h in
          (c.encode (line ++ (10 ∷ [])), rw (← same) (get-append c line l ∙ ap grow here))
      | no differ ↦ (
        [],
        rw (append-log c line l, append-nil)
            (get-roll_if_full name (grown c line l) b (
              unfold grown in
              ground (
                arith,
                get-put active name (active_bytes l ++ c.encode (line ++ (10 ∷ []))) l.files,
              ))),
      )
    ]
  where
    grow : Option Bytes → Option Bytes
    grow x = some (content x ++ c.encode (line ++ (10 ∷ [])))

-- `append` changes nothing that could be read before: a slice inside a segment stays in it, and
-- reads as it did.
pub read-append_old :
    (c : Codec) (line : Text) (l : Log) (n offset size : ℕ)
    → Holds l n offset size
    → Holds (append c line l).1 n offset size
      × (read c (show_03d n) offset size (append c line l).1 ≡ read c (show_03d n) offset size l)
read-append_old c line l n offset size h =
    let (more, file) = get-append_old c line l (segment_name l.service n) h.bytes h.file in
    let before : read c (show_03d n) offset size l ≡ read_slice c offset size (some h.bytes) =
      rw (read-segment c n offset size l, h.file) refl in
    (
      record {
        bytes = h.bytes ++ more;
        file = rw (service-append c line l) file;
        inside = omega (arith, h.inside, length-append h.bytes more);
      },
      read-segment c n offset size (append c line l).1
          ∙ rw (service-append c line l, file)
              (read_slice-more c offset size h.bytes more h.inside ∙ sym before),
    )

-- The slice that `append` reports lies inside its segment.
pub append-Holds :
    (c : Codec) (line : Text) (l : Log)
    → ((append c line l).0.0 ≡ show_03d l.active_segment)
      × Holds (append c line l).1 l.active_segment (append c line l).0.1 (append c line l).0.2
append-Holds c line l = rw (append-place c line l) (
  refl,
  record {
    bytes = active_bytes l ++ c.encode (line ++ (10 ∷ []));
    file = rw (service-append c line l) (get-append c line l);
    inside = omega (arith, length-append (active_bytes l) (c.encode (line ++ (10 ∷ []))));
  },
)
