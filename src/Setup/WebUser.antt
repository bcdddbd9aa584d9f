-- ===== src/Setup/WebUser.antt =====
-- What init_database leaves of the database user of the web interface.
use ovpn_manager.Prelude.{
  ◌≡◌, Bool, true, false, ◌&&◌, Option, none, some, Bytes, map, take, arith, Bool-cases,
  Option-cases, inl, inr,
}
use ovpn_manager.Config.{Config}
use ovpn_manager.Setup.{
  Site, WebAnswers, SchemaAnswers, CreateUser, created, already_exists, refused, create_result,
  charset_at, create_user, init_web_user, init_database,
}

-- The script is run and committed.
abbrev pub is_run : SchemaAnswers → Site → Bool
is_run a s = a.opened && (a.allocated && (a.begun && ((a.executed && s.role) && a.committed)))

abbrev pub no_bytes : Option Bytes → Bool
no_bytes none = true
no_bytes (some rs) = false

-- The web interface's user and its files are as before; the result is `b`.
record IsUnchanged (s after : Site) (b expected : Bool) : Type 0 where
  same_user : after.web_user ≡ s.web_user
  same_auth : after.web_db_auth ≡ s.web_db_auth
  same_yaml : after.core_yaml ≡ s.core_yaml
  result_is : b ≡ expected

existing_user :
    (role : Bool) (u : CreateUser) (a : WebAnswers) (c : Config) (password : Bytes) (s after : Site)
    (b : Bool)
    → role ≡ true
    → create_user (create_result role u) a c password s ≡ some (after, b)
    → IsUnchanged s after b false
unfolding create_user create_result
existing_user true created a c password s after b there e = cc
existing_user true already_exists a c password s after b there e = cc
existing_user true refused a c password s after b there e = ground arith
existing_user false u a c password s after b there e = cc

init_web_user-IsUnchanged :
    (a : WebAnswers) (c : Config) (s after : Site) (b : Bool)
    → s.role ≡ true
    → init_web_user a c s ≡ some (after, b)
    → IsUnchanged s after b (no_bytes a.random_bytes)
unfolding init_web_user
init_web_user-IsUnchanged a c s after b there e = elim (Option-cases a.random_bytes) [
  | inl no_random ↦
      let e' : some (s, true) ≡ some (after, b) = rw (no_random, init_web_user) at e in
      ground (arith, e', no_random)
  | inr (rs, random) ↦ rw random (
      existing_user s.role a.user a c (map charset_at (take 32 rs)) s after b there
        (rw (random, init_web_user) at e))
]

-- init_database never sets up the user of the web interface: where it is defined, the user's
-- password and the files web-db-auth and core.yaml are as before, whatever the database and the
-- system answer. It returns 0 exactly if the script was run and committed and no random bytes could
-- be had for the password.
pub init_database-web_user :
    (a : SchemaAnswers) (c : Config) (s after : Site) (b : Bool)
    → init_database a c s ≡ some (after, b)
    → (after.web_user ≡ s.web_user)
      × (after.web_db_auth ≡ s.web_db_auth)
      × (after.core_yaml ≡ s.core_yaml)
      × (b ≡ (is_run a s && no_bytes a.web.random_bytes))
unfolding init_database
init_database-web_user a c s after b e = elim (Bool-cases (is_run a s)) [
  | inr failed ↦
      let e' : some (s, false) ≡ some (after, b) = rw (failed, init_database) at e in
      ground (arith, e', failed)
  | inl done ↦
      let start : Site = record s { initialized = true } in
      let kept =
        init_web_user-IsUnchanged a.web c start after b (ground arith)
          (rw (done, init_database) at e) in
      (kept.same_user, kept.same_auth, kept.same_yaml, ground (arith, kept.result_is))
]
