-- ===== src/FullText/Words.antt =====
-- What a search finds, from the words of the texts that were added and removed.
use mathlib.Core.Path.{fun_ext}
use mk_db.Base.{
  ◌≡◌, refl, ap, ◌∙◌, Text, List, [], ◌∷◌, Bool, true, false, ◌&&◌, ◌||◌, not, text_key,
  text_discrete, test, arith, if◌then◌else◌,
}
use mk_db.Base.Dicts
use mk_db.Base.Sets.{elem, union, inter, elem-union, elem-inter}
use mk_db.Postings.{ids_or_empty, add_at, discard_at, has, has-add_at, has-discard_at}
use mk_db.Tokenizer.{tokenize}
use mk_db.FullText.{
  Stems, FullText, add_all, discard_all, add_text, remove_text, ids_of_stems, inter_keywords,
  union_keywords, search_map, search,
}

-- Whether any stem of the list has the property.
abbrev pub any : (Text → Bool) → List Text → Bool
any p [] = false
any p (stem ∷ stems) = p stem || any p stems

-- Every keyword has a stem with the property, and some keyword has one.
abbrev every_keyword : (Text → Text) → (Text → Bool) → List Text → Bool
every_keyword lower p [] = true
every_keyword lower p (kw ∷ kws) = any p (tokenize lower kw) && every_keyword lower p kws

abbrev some_keyword : (Text → Text) → (Text → Bool) → List Text → Bool
some_keyword lower p [] = false
some_keyword lower p (kw ∷ kws) = any p (tokenize lower kw) || some_keyword lower p kws

abbrev pub found_by : (Text → Text) → Bool → (Text → Bool) → List Text → Bool
found_by lower and_mode p [] = false
found_by lower and_mode p (kw ∷ kws) =
    if and_mode then every_keyword lower p (kw ∷ kws) else some_keyword lower p (kw ∷ kws)

elem-ids_of_stems :
    (j : Text) (stems : List Text) (m : Stems)
    → elem j (ids_of_stems stems m) ≡ any (λ stem. has stem j m) stems
unfolding ids_of_stems elem has
elem-ids_of_stems j [] m = refl
elem-ids_of_stems j (stem ∷ stems) m = ground (
  arith,
  elem-union j (ids_or_empty (Dicts.get stem m)) (ids_of_stems stems m),
  elem-ids_of_stems j stems m,
)

elem-inter_keywords :
    (lower : Text → Text) (j : Text) (kws result : List Text) (m : Stems)
    → elem j (inter_keywords lower kws result m)
      ≡ (elem j result && every_keyword lower (λ stem. has stem j m) kws)
unfolding inter_keywords
elem-inter_keywords lower j [] result m = ground arith
elem-inter_keywords lower j (kw ∷ kws) result m = ground (
  arith,
  elem-inter_keywords lower j kws (inter result (ids_of_stems (tokenize lower kw) m)) m,
  elem-inter j result (ids_of_stems (tokenize lower kw) m),
  elem-ids_of_stems j (tokenize lower kw) m,
)

elem-union_keywords :
    (lower : Text → Text) (j : Text) (kws result : List Text) (m : Stems)
    → elem j (union_keywords lower kws result m)
      ≡ (elem j result || some_keyword lower (λ stem. has stem j m) kws)
unfolding union_keywords
elem-union_keywords lower j [] result m = ground arith
elem-union_keywords lower j (kw ∷ kws) result m = ground (
  arith,
  elem-union_keywords lower j kws (union result (ids_of_stems (tokenize lower kw) m)) m,
  elem-union j result (ids_of_stems (tokenize lower kw) m),
  elem-ids_of_stems j (tokenize lower kw) m,
)

elem-search_map :
    (lower : Text → Text) (and_mode : Bool) (j : Text) (kws : List Text) (m : Stems)
    → elem j (search_map lower and_mode kws m) ≡ found_by lower and_mode (λ stem. has stem j m) kws
unfolding search_map elem
elem-search_map lower and_mode j [] m = refl
elem-search_map lower true j (kw ∷ kws) m = ground (
  arith,
  elem-inter_keywords lower j kws (ids_of_stems (tokenize lower kw) m) m,
  elem-ids_of_stems j (tokenize lower kw) m,
)
elem-search_map lower false j (kw ∷ kws) m = elem-union_keywords lower j (kw ∷ kws) [] m

pub has-add_all :
    (stem id j : Text) (stems : List Text) (m : Stems)
    → has stem j (add_all stems id m)
      ≡ (has stem j m || (elem stem stems && test (text_discrete id j)))
unfolding add_all elem
has-add_all stem id j [] m = ground arith
has-add_all stem id j (s ∷ stems) m =
    ground (arith, has-add_all stem id j stems (add_at s id m), has-add_at s stem id j m)

has-discard_all :
    (stem id j : Text) (stems : List Text) (m : Stems)
    → has stem j (discard_all stems id m)
      ≡ (has stem j m && not (elem stem stems && test (text_discrete j id)))
unfolding discard_all elem
has-discard_all stem id j [] m = ground arith
has-discard_all stem id j (s ∷ stems) m =
    ground
      (arith, has-discard_all stem id j stems (discard_at s id m), has-discard_at s stem id j m)

search-in_ram :
    (lower : Text → Text) (and_mode : Bool) (j : Text) (kws : List Text) (x : FullText)
    → x.in_ram ≡ true
    → elem j (search lower and_mode kws x).0
      ≡ found_by lower and_mode (λ stem. has stem j x.map) kws
unfolding search elem
search-in_ram lower and_mode j [] x h = refl
search-in_ram lower and_mode j (kw ∷ kws) x h =
    rw (h, search) (elem-search_map lower and_mode j (kw ∷ kws) x.map)

pub map-add_text :
    (lower : Text → Text) (id text : Text) (x : FullText)
    → x.in_ram ≡ true
    → add_text lower id text x ≡ record x { map = add_all (tokenize lower text) id x.map }
unfolding add_text
map-add_text lower id text x h = ground arith

map-remove_text :
    (lower : Text → Text) (id text : Text) (x : FullText)
    → x.in_ram ≡ true
    → remove_text lower id text x ≡ record x { map = discard_all (tokenize lower text) id x.map }
unfolding remove_text
map-remove_text lower id text x h = ground arith

-- In an index that is in memory, a search finds an id by the words that it had before and those of a
-- text that was added for it, and after a text was removed for it no more by that text's words. What
-- it finds other ids by is not changed. In the mode "and" every keyword must have one of its words
-- there, in the mode "or" some keyword, and without keywords nothing is found.
pub search-add_text :
    (lower : Text → Text) (and_mode : Bool) (id j text : Text) (kws : List Text) (x : FullText)
    → x.in_ram ≡ true
    → (elem j (search lower and_mode kws (add_text lower id text x)).0
        ≡ found_by lower and_mode
            (λ stem.
              has stem j x.map || (elem stem (tokenize lower text) && test (text_discrete id j)))
            kws)
      × (elem j (search lower and_mode kws (remove_text lower id text x)).0
          ≡ found_by lower and_mode
              (λ stem.
                has stem j x.map
                && not (elem stem (tokenize lower text) && test (text_discrete j id)))
              kws)
search-add_text lower and_mode id j text kws x h = (
  rw (map-add_text lower id text x h) (
      search-in_ram lower and_mode j kws (record x { map = add_all (tokenize lower text) id x.map })
        h
      ∙ ap (λ p. found_by lower and_mode p kws)
          (fun_ext (λ stem. has-add_all stem id j (tokenize lower text) x.map))),
  rw (map-remove_text lower id text x h) (
      search-in_ram lower and_mode j kws
        (record x { map = discard_all (tokenize lower text) id x.map }) h
      ∙ ap (λ p. found_by lower and_mode p kws)
          (fun_ext (λ stem. has-discard_all stem id j (tokenize lower text) x.map))),
)
