-- ===== src/Tests/Guards.antt =====
-- Tests of the rate limiter and of the guards.
use mk_db.Base.{
  ◌≡◌, ◌⊎◌, refl, strip, ℕ, ◌+◌, Text, [], ◌∷◌, none, some, true, false, codes, text_key,
  text_discrete, arith, ltb, length, test,
}
use mk_db.Base.Dicts
use mk_db.Access.Rates.{recent, exceeds, requests, exceeds-requests}
use mk_db.Access.Guards.{
  Tokens, User, Config, Secrets, Session, refused, check_token, check_user_auth, deny_request,
  deny_with_users, deny_named, deny_user, deny_permission,
}
use mk_db.Access.Safety.{MayWrite, deny_request-writes}
use mk_db.Access.Exclusive.{check_token-check_user_auth}

exceeds-requests_example :
    (exceeds 10 1 14 (codes "ip") (requests 10 1 (codes "ip") (2 ∷ 5 ∷ []) [])).0
    ≡ ltb 1 (length (recent 10 14 (2 ∷ 5 ∷ [])) + 1)
exceeds-requests_example =
    exceeds-requests 10 1 (codes "ip") (2 ∷ 5 ∷ []) 14 []
      (omega arith, (omega arith, (omega arith, tt))) (unfold Dicts.get in refl)

-- A password is its own hash, and a header is not encoded.
abbrev secrets : Secrets
secrets = record {
  verify_password = λ password hash. test (text_discrete password hash);
  b64decode = λ s. some s;
}

abbrev ann : User
ann = record {
  password_hash = codes "pw";
  stores = (codes "s", record { write = true; read = true }) ∷ [];
}

abbrev config : Config
config = record { users = (codes "ann", ann) ∷ []; protect_reads = false; stores = [] }

abbrev header : Text
header = codes "Basic ann:pw"

abbrev first_or_zero : Text → ℕ
first_or_zero [] = 0
first_or_zero (c ∷ s) = c

abbrev session : Session
session = record { username = codes "ann"; can_read = true; can_write = true }

session-allowed : deny_request config (codes "write") (codes "s") session ≡ none
unfolding deny_request deny_with_users deny_named deny_user deny_permission Dicts.get text_discrete
session-allowed = refl

deny_request-writes_example : (true ≡ true) × MayWrite config (codes "s") (codes "ann")
deny_request-writes_example =
    deny_request-writes config b's' [] (codes "write") session (codes "ann", ann) [] refl
      (unfold text_discrete in refl) session-allowed

abbrev tokens : Tokens
tokens = (codes "key", []) ∷ []

no_token : Dicts.get (strip header) tokens ≡ none
unfolding Dicts.get text_discrete strip
no_token = refl

check_token-check_user_auth_example :
    (check_token tokens (codes "POST") (codes "/data") header ≡ refused 403)
    ⊎ (check_user_auth secrets config [] true (codes "ip") header ≡ refused 401)
check_token-check_user_auth_example =
    check_token-check_user_auth secrets (codes "key", []) [] config (codes "ann", ann) []
      (codes "POST") (codes "/data") [] (codes "ip") header refl (λ h. no_token)
