-- ===== src/Access/Guards.antt =====
-- The guards of the HTTP data plane, mkdb/server/coms/http_handlers.py: `_check_token` and
-- `_check_user_auth`, and the permission checks of `_handle_request` in mkdb/server/coms/socket.py. A
-- request is refused with a code or goes on. `user.stores` holds a permission for each store.
use mk_db.Base.{
  ℕ, Text, codes, text_key, text_discrete, List, [], ◌∷◌, Option, none, some, Bool, false, not,
  ◌&&◌, ◌||◌, Dict, test, split, strip, drop, if◌then◌else◌, ◌==◌,
}
use mk_db.Base.Dicts
use mk_db.Query.Values.{is_prefix}

pub data Verdict (A : Type 0) : Type 0 where
  refused : ℕ → Verdict A
  passed : A → Verdict A

-- `_token_permissions`: for each token, the operations that it may do, by store.
abbrev pub Tokens : Type 0
Tokens = Dict Text (Dict Text (List Text))

-- `register_token`
unfoldable register_token : Text → Text → List Text → Tokens → Tokens
register_token token store ops tokens =
    Dicts.put token (Dicts.put store ops (perms_or_none (Dicts.get token tokens))) tokens
  where
    perms_or_none : Option (Dict Text (List Text)) → Dict Text (List Text)
    perms_or_none none = []
    perms_or_none (some p) = p

-- The texts between the separators that are not empty.
unfoldable pub drop_empty : List Text → List Text
drop_empty [] = []
drop_empty ([] ∷ ps) = drop_empty ps
drop_empty ((c ∷ p) ∷ ps) = (c ∷ p) ∷ drop_empty ps

unfoldable pub path_parts : Text → List Text
unfolding drop_empty split
path_parts path = drop_empty (split b'/' path)

-- `_ENDPOINT_OP`
unfoldable endpoint_op : Text → Text → Option Text
endpoint_op command segment =
    if test (text_discrete segment (codes "data"))
    then Dicts.get command (
        (codes "GET", codes "read")
        ∷ (codes "POST", codes "write")
        ∷ (codes "DELETE", codes "delete")
        ∷ [])
    else if test (text_discrete segment (codes "query"))
    then Dicts.get command ((codes "POST", codes "query") ∷ [])
    else none

-- The store of a token's check: that of "/data/STORE...", else "*".
unfoldable token_store : List Text → Text
token_store (d ∷ store ∷ ps) = if test (text_discrete d (codes "data")) then store else codes "*"
token_store ps = codes "*"

abbrev first_segment : List Text → Text
first_segment [] = []
first_segment (p ∷ ps) = p

unfoldable is_listed : Text → List Text → Bool
is_listed op [] = false
is_listed op (o ∷ ops) = test (text_discrete o op) || is_listed op ops

abbrev ops_or_none : Option (List Text) → List Text
ops_or_none none = []
ops_or_none (some ops) = ops

-- The token behind "Bearer ", stripped.
unfoldable pub raw_token : Text → Text
unfolding is_prefix strip
raw_token header = strip (if is_prefix (codes "Bearer ") header then drop 7 header else header)

-- The operation against a token's grants for the store and for "*".
unfoldable check_grant : Option Text → Text → Dict Text (List Text) → Verdict (Unit {0})
unfolding is_listed
check_grant none store perms = passed tt
check_grant (some op) store perms =
    if is_listed op (ops_or_none (Dicts.get store perms))
      || is_listed op (ops_or_none (Dicts.get (codes "*") perms))
    then passed tt
    else refused 403

unfoldable pub check_registered :
    Text → List Text → Option (Dict Text (List Text)) → Verdict (Unit {0})
unfolding check_grant endpoint_op token_store
check_registered command parts none = refused 403
check_registered command parts (some perms) =
    check_grant (endpoint_op command (first_segment parts)) (token_store parts) perms

-- An empty token is refused, as is one that is not registered.
unfoldable pub check_raw : Tokens → Text → List Text → Text → Verdict (Unit {0})
unfolding check_registered
check_raw tokens command parts [] = refused 403
check_raw tokens command parts (c ∷ token) =
    check_registered command parts (Dicts.get (c ∷ token) tokens)

-- `_check_token`; without tokens every request passes.
unfoldable pub check_token : Tokens → Text → Text → Text → Verdict (Unit {0})
unfolding check_raw path_parts raw_token
check_token [] command path header = passed tt
check_token (t ∷ tokens) command path header =
    check_raw (t ∷ tokens) command (path_parts path) (raw_token header)

pub record Permission : Type 0 where
  pub write : Bool
  pub read : Bool

pub record User : Type 0 where
  pub password_hash : Text
  pub stores : Dict Text Permission

-- What the guards read of the configuration: `users`, `data_security.protect_reads`, and
-- `protect_reads` of each store.
pub record Config : Type 0 where
  pub users : Dict Text User
  pub protect_reads : Bool
  pub stores : Dict Text Bool

abbrev flag_or_false : Option Bool → Bool
flag_or_false none = false
flag_or_false (some b) = b

-- A store that is named, `""` being none, and protected.
unfoldable is_protected : Config → Text → Bool
is_protected g [] = g.protect_reads
is_protected g (c ∷ store) = g.protect_reads || flag_or_false (Dicts.get (c ∷ store) g.stores)

-- The permission of a user for the store that is asked for.
unfoldable pub check_permission : Bool → Option Permission → Text → Verdict Text
check_permission require_write none username = refused 403
check_permission require_write (some p) username =
    if require_write && not p.write
    then refused 403
    else if not require_write && not p.read
    then refused 403
    else passed username

unfoldable pub check_store : Text → Bool → User → Text → Verdict Text
unfolding check_permission
check_store [] require_write u username = passed username
check_store (c ∷ store) require_write u username =
    if test (text_discrete (c ∷ store) (codes "*"))
    then passed username
    else check_permission require_write (Dicts.get (c ∷ store) u.stores) username

-- `raw.index(":")`: what stands before it and behind it.
unfoldable pub cut_at_colon : Text → Option (Text × Text)
cut_at_colon [] = none
cut_at_colon (c ∷ s) =
    let rest = cut_at_colon s in
    if c == b':' then some ([], s) else elim rest [ none ↦ none | some (a, b) ↦ some (c ∷ a, b) ]

-- `verify_password`, and `base64.b64decode(s).decode("utf-8", errors="replace")`, which can raise.
pub record Secrets : Type 0 where
  pub verify_password : Text → Text → Bool
  pub b64decode : Text → Option Text

abbrev credentials : Option Text → Option (Text × Text)
credentials none = none
credentials (some raw) = cut_at_colon raw

module _ (k : Secrets) where
  unfoldable pub check_user : Text → Bool → Text → Text → Option User → Verdict Text
  unfolding check_store
  check_user store require_write username password none = refused 403
  check_user store require_write username password (some u) =
      if k.verify_password password u.password_hash
      then check_store store require_write u username
      else refused 403

  unfoldable pub check_credentials : Config → Text → Bool → Option (Text × Text) → Verdict Text
  unfolding check_user
  check_credentials g store require_write none = refused 401
  check_credentials g store require_write (some (username, password)) =
      check_user store require_write username password (Dicts.get username g.users)

  unfoldable pub check_basic : Config → Text → Bool → Text → Verdict Text
  unfolding check_credentials is_prefix cut_at_colon
  check_basic g store require_write header =
      if is_prefix (codes "Basic ") header
      then check_credentials g store require_write (credentials (k.b64decode (drop 6 header)))
      else refused 401

  -- `_check_user_auth`: the key of the client, its address or the user's name. Without users, and for
  -- a read that is not protected, every request passes.
  unfoldable pub check_user_auth : Config → Text → Bool → Text → Text → Verdict Text
  unfolding check_basic is_protected
  check_user_auth g store require_write address header = elim g.users [
    | [] ↦ passed address
    | u ∷ us ↦
        if not require_write && not (is_protected g store)
        then passed address
        else check_basic g store require_write header
  ]

-- What `_handle_request` of the socket server reads of a session.
pub record Session : Type 0 where
  pub username : Text
  pub can_read : Bool
  pub can_write : Bool

-- The answers that refuse a request, in the order of the code.
pub data Denial : Type 0 where
  reconnect_to_write reconnect_to_read user_is_gone no_access write_denied read_denied : Denial
  authentication_to_write authentication_to_read : Denial

abbrev is_named : Text → Text → Bool
is_named action name = test (text_discrete action name)

abbrev pub is_write : Text → Bool
is_write action = is_named action (codes "write") || is_named action (codes "delete")

abbrev pub is_read : Text → Bool
is_read action = is_named action (codes "read") || is_named action (codes "query")

unfoldable pub deny_permission : Bool → Option Permission → Option Denial
deny_permission writes none = some no_access
deny_permission writes (some p) =
    if writes && not p.write
    then some write_denied
    else if not writes && not p.read
    then some read_denied
    else none

unfoldable pub deny_user : Bool → Text → Option User → Option Denial
unfolding deny_permission
deny_user writes store none = some user_is_gone
deny_user writes [] (some u) = none
deny_user writes (c ∷ store) (some u) = deny_permission writes (Dicts.get (c ∷ store) u.stores)

-- A session without a user's name; the configuration of the store is found by any name.
unfoldable pub deny_anonymous : Config → Text → Text → Option Denial
deny_anonymous g action store =
    if is_write action
    then some authentication_to_write
    else if is_read action && (g.protect_reads || flag_or_false (Dicts.get store g.stores))
    then some authentication_to_read
    else none

unfoldable pub deny_named : Config → Text → Text → Text → Option Denial
unfolding deny_user deny_anonymous
deny_named g action store [] = deny_anonymous g action store
deny_named g action store (c ∷ username) =
    deny_user (is_write action) store (Dicts.get (c ∷ username) g.users)

unfoldable pub deny_with_users : Config → Dict Text User → Text → Text → Text → Option Denial
unfolding deny_named
deny_with_users g [] action store username = none
deny_with_users g (u ∷ us) action store username = deny_named g action store username

-- The permission checks of `_handle_request`: `none` goes on to the action.
unfoldable pub deny_request : Config → Text → Text → Session → Option Denial
unfolding deny_with_users
deny_request g action store s =
    if is_write action && not s.can_write
    then some reconnect_to_write
    else if is_read action && not s.can_read
    then some reconnect_to_read
    else deny_with_users g g.users action store s.username
