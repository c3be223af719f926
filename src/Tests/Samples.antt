-- ===== src/Tests/Samples.antt =====
-- The data of the tests: a record, a codec that fits it, and stores with and without a record.
use mk_db.Base.{
  ℕ, ◌≡◌, refl, Text, List, [], ◌∷◌, ◌++◌, Option, none, some, Bool, true, false, codes, has_char,
  text_key, text_discrete, arith, is_space, length, ok,
}
use mk_db.Base.Dicts
use mk_db.Json.{Fields, end, field, obj, int}
use mk_db.Codec.{Codec, IsUtf8, IsJson}
use mk_db.Serializer.RoundTrip.{IsLineId}
use mk_db.Index
use mk_db.Index.{Index, Entry}
use mk_db.Log
use mk_db.Log.{Log}
use mk_db.Disk.{Disk}
use mk_db.Disk.Others.{IsInside, IsHeld}

-- `{"a": 1}`
abbrev pub sample : Fields
sample = field (codes "a") (int false 1) end

-- Texts are their own bytes, and the one record is the sample.
abbrev pub sample_codec : Codec
sample_codec = record {
  encode = λ s. s;
  decode = λ b. some b;
  dumps = λ d. codes "{\"a\": 1}";
  loads = λ s. some (obj sample);
}

pub sample_codec-IsUtf8 : IsUtf8 sample_codec
sample_codec-IsUtf8 = record { decode-encode = λ s. refl }

pub sample-IsJson : IsJson sample_codec sample
unfolding has_char
sample-IsJson = record { loads-dumps = refl; body = codes "\"a\": 1"; braces = refl; line = refl }

pub b-IsLineId : IsLineId (codes "b")
unfolding has_char is_space
b-IsLineId = record { first = b'b'; rest = []; cons = refl; front = refl; blank = refl }

abbrev empty_log : Log
empty_log = record { service = codes "s"; segment_threshold = 100; active_segment = 1; files = [] }

abbrev pub empty_disk : Disk
empty_disk = record {
  nested = false;
  blob_threshold = 50;
  index = record { map = []; dirty = false; file = none };
  log = empty_log;
}

-- The entry and the line of a record "b" in the first segment.
abbrev pub entry_b : Entry
entry_b = record { segment_seq = codes "001"; offset = 0; size = 11 }

abbrev pub log_b : Log
log_b = record {
  service = codes "s";
  segment_threshold = 5;
  active_segment = 2;
  files = (codes "s_001.log", codes "b {\"a\": 1}" ++ (10 ∷ [])) ∷ [];
}

abbrev pub disk_b : Disk
disk_b = record {
  nested = false;
  blob_threshold = 50;
  index = record { map = (codes "b", entry_b) ∷ []; dirty = false; file = none };
  log = log_b;
}

pub entry_b-IsInside : IsInside log_b entry_b
unfolding mk_db.Base.show_03d Log.segment_name Dicts.get text_discrete
entry_b-IsInside = record {
  number = 1;
  segment = refl;
  slice = record { bytes = codes "b {\"a\": 1}" ++ (10 ∷ []); file = refl; inside = omega arith };
}

found-eq : (j : Text) (e : Entry) → Index.get j disk_b.index ≡ some e → entry_b ≡ e
unfolding Index.get Dicts.get
found-eq j e found = ground arith

pub disk_b-IsHeld : IsHeld disk_b
disk_b-IsHeld = record { at = λ j e found. rw (← found-eq j e found) entry_b-IsInside }
