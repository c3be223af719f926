-- ===== src/Access/Safety.antt =====
-- What a request that is let through has shown.
use mk_db.Base.{
  ℕ, ◌≡◌, refl, Text, text_key, [], ◌∷◌, Option, none, some, true, not, ◌&&◌, Dict, Bool-cases, inl,
  inr,
}
use mk_db.Base.Dicts
use mk_db.Access.Guards.{
  Permission, User, Config, Secrets, Session, is_write, deny_request, deny_with_users, deny_named,
  deny_user, deny_permission, deny_anonymous, is_read,
}

-- A user of the configuration under this name, who may write to the store.
pub record MayWrite (g : Config) (store username : Text) : Type 0 where
  pub user : User
  pub known : Dicts.get username g.users ≡ some user
  pub permission : Permission
  pub granted : Dicts.get store user.stores ≡ some permission
  pub write : permission.write ≡ true

module _ (k : Secrets) where
  -- The user's password was given.
  pub record HasPassword (g : Config) (username : Text) : Type 0 where
    pub user : User
    pub known : Dicts.get username g.users ≡ some user
    pub password : Text
    pub verified : k.verify_password password user.password_hash ≡ true

  -- What is known of a user who was let through.
  abbrev pub Entitled : Config → Text → Text → Type 0
  Entitled g store key = MayWrite g store key × HasPassword g key

-- A request of a session that is not refused.
deny_permission-writes :
    (o : Option Permission)
    → deny_permission true o ≡ none
    → (p : Permission) × (o ≡ some p) × (p.write ≡ true)
unfolding deny_permission
deny_permission-writes none h = absurd (cc)
deny_permission-writes (some p) h = elim (Bool-cases p.write) [
  | inl yes_ ↦ (p, refl, yes_)
  | inr no_ ↦ absurd (cc (rw no_ at h))
]

deny_user-writes :
    (g : Config) (c : ℕ) (s username : Text) (o : Option User)
    → Dicts.get username g.users ≡ o
    → deny_user true (c ∷ s) o ≡ none
    → MayWrite g (c ∷ s) username
unfolding deny_user
deny_user-writes g c s username none known h = absurd (cc)
deny_user-writes g c s username (some u) known h =
    let (p, granted, write) = deny_permission-writes (Dicts.get (c ∷ s) u.stores) h in
    record { user = u; known = known; permission = p; granted = granted; write = write }

deny_named-writes :
    (g : Config) (c : ℕ) (s action username : Text)
    → is_write action ≡ true
    → deny_named g action (c ∷ s) username ≡ none
    → MayWrite g (c ∷ s) username
unfolding deny_named deny_anonymous
deny_named-writes g c s action [] writes h = absurd (cc (rw writes at h))
deny_named-writes g c s action (x ∷ username) writes h =
    deny_user-writes g c s (x ∷ username) (Dicts.get (x ∷ username) g.users) refl (rw writes at h)

-- Where users are configured, the socket server goes on to a write or a delete in a named store only for a
-- session that may write and that is logged in as one of these users, who has the permission to write to
-- this store.
pub deny_request-writes :
    (g : Config) (c : ℕ) (s action : Text) (session : Session) (u : Text × User)
    (us : Dict Text User)
    → g.users ≡ u ∷ us
    → is_write action ≡ true
    → deny_request g action (c ∷ s) session ≡ none
    → (session.can_write ≡ true) × MayWrite g (c ∷ s) session.username
unfolding deny_request deny_with_users
deny_request-writes g c s action session u us users writes h = elim (Bool-cases session.can_write) [
  | inr cannot ↦ absurd (cc (rw (writes, cannot) at h))
  | inl can ↦ elim (Bool-cases (is_read action && not session.can_read)) [
    | inl reads ↦ absurd (cc (rw (writes, can, reads) at h))
    | inr other ↦
        let rest : deny_with_users g g.users action (c ∷ s) session.username ≡ none =
          rw (writes, can, other) at h in
        (
          can,
          deny_named-writes g c s action session.username writes
              (rw (deny_with_users, users) at rest),
        )
  ]
]
