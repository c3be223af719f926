-- ===== src/Access/Exclusive.antt =====
-- Tokens and users together, mkdb/server/coms/http_handlers.py: `_check_token` and `_check_user_auth` read
-- the same header.
use mk_db.Base.{
  ◌≡◌, refl, ◌∙◌, ap, Text, codes, text_key, List, [], ◌∷◌, none, true, false, Dict, arith, strip,
  Bool-cases, inl, inr, ◌⊎◌,
}
use mk_db.Base.Dicts
use mk_db.Query.Values.{is_prefix}
use mk_db.Access.Guards.{
  refused, Tokens, User, Config, Secrets, check_token, check_raw, check_registered, path_parts,
  raw_token, check_user_auth, check_basic,
}

-- No text starts with both.
basic-not-bearer :
    (s : Text) → is_prefix (codes "Basic ") s ≡ true → is_prefix (codes "Bearer ") s ≡ false
unfolding is_prefix
basic-not-bearer [] h = refl
basic-not-bearer (a ∷ []) h = ground arith
basic-not-bearer (a ∷ b ∷ s) h = ground arith

raw_token-basic :
    (header : Text) → is_prefix (codes "Basic ") header ≡ true → raw_token header ≡ strip header
unfolding raw_token
raw_token-basic header h = rw (basic-not-bearer header h) refl

check_raw-unknown :
    (tokens : Tokens) (command : Text) (parts : List Text) (token : Text)
    → Dicts.get token tokens ≡ none
    → check_raw tokens command parts token ≡ refused 403
unfolding check_raw check_registered
check_raw-unknown tokens command parts [] h = refl
check_raw-unknown tokens command parts (c ∷ token) h = rw h refl

-- Where tokens and users are both configured, a write is refused whatever its header is, unless that
-- starts with "Basic " and is itself a registered token: a header for a user is no token, and a
-- header for a token names no user.
pub check_token-check_user_auth :
    (k : Secrets) (t : Text × Dict Text (List Text)) (ts : Tokens) (g : Config) (u : Text × User)
    (us : Dict Text User) (command path store address header : Text)
    → g.users ≡ u ∷ us
    → (is_prefix (codes "Basic ") header ≡ true → Dicts.get (strip header) (t ∷ ts) ≡ none)
    → (check_token (t ∷ ts) command path header ≡ refused 403)
      ⊎ (check_user_auth k g store true address header ≡ refused 401)
unfolding check_token check_user_auth check_basic
check_token-check_user_auth k t ts g u us command path store address header users unknown =
    elim (Bool-cases (is_prefix (codes "Basic ") header)) [
      | inl basic ↦ inl (
          ap (check_raw (t ∷ ts) command (path_parts path)) (raw_token-basic header basic)
          ∙ check_raw-unknown (t ∷ ts) command (path_parts path) (strip header) (unknown basic))
      | inr other ↦ inr (rw (check_user_auth, users, other) refl)
    ]
