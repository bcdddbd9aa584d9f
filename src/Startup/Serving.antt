-- ===== src/Startup/Serving.antt =====
-- With what the daemon serves.
use ovpn_manager.Prelude.{
  ◌≡◌, sym, ap, subst, ◌⊎◌, inl, inr, Bool, true, false, not, ◌&&◌, Option, none, some, Bytes, map,
  take, length, is_empty, arith, Bool-cases, Option-cases,
}
use ovpn_manager.Config.{Config, parse_config}
use ovpn_manager.Config.Bounds.{IsComplete, parse_config-IsBounded}
use ovpn_manager.Setup.{
  Site, WebAnswers, SchemaAnswers, CreateUser, created, already_exists, refused, create_result,
  charset_at, write_auth, create_user, init_web_user, init_database,
}
use ovpn_manager.Setup.Keys.{is_empty-generate_random_key}
use ovpn_manager.Setup.WebUser.{is_run}
use ovpn_manager.Startup.{Answers, serving, with_key, is_missing, finish, start_with, start_daemon}

-- What a run of init_database that returns 0 leaves.
write_auth-initialized :
    (a : WebAnswers) (c : Config) (p : Bytes) (s : Site)
    → (write_auth a c p s).0.initialized ≡ s.initialized
unfolding write_auth
write_auth-initialized a c p s = ground arith

create_user-initialized :
    (u : CreateUser) (a : WebAnswers) (c : Config) (p : Bytes) (s after : Site) (b : Bool)
    → create_user u a c p s ≡ some (after, b)
    → after.initialized ≡ s.initialized
unfolding create_user
create_user-initialized created a c p s after b e =
    ground (arith, write_auth-initialized a c p (record s { role = true; web_user = some p }))
create_user-initialized already_exists a c p s after b e = cc
create_user-initialized refused a c p s after b e = ground arith

web_user-initialized :
    (a : WebAnswers) (c : Config) (s after : Site) (b : Bool)
    → init_web_user a c s ≡ some (after, b)
    → after.initialized ≡ s.initialized
unfolding init_web_user
web_user-initialized a c s after b e = elim (Option-cases a.random_bytes) [
  | inl none_e ↦
      let same : some (s, true) ≡ some (after, b) = rw (none_e, init_web_user) at e in
      let at_site : s ≡ after = cc in ap (λ x. x.initialized) (sym at_site)
  | inr (rs, some_e) ↦
      create_user-initialized (create_result s.role a.user) a c (map charset_at (take 32 rs)) s
        after b (rw (some_e, init_web_user) at e)
]

init_database-initialized :
    (a : SchemaAnswers) (c : Config) (s after : Site)
    → init_database a c s ≡ some (after, true)
    → after.initialized ≡ true
unfolding init_database init_web_user
init_database-initialized a c s after e = elim (Bool-cases (is_run a s)) [
  | inr failed ↦ cc (rw (failed, init_database) at e)
  | inl done ↦
      web_user-initialized a.web c (record s { initialized = true }) after true
        (rw (done, init_database) at e)
]

finish-serving :
    (c c' : Config) (after : Site) (r : Option (Site × Bool))
    → finish c r ≡ some (after, serving c')
    → (r ≡ some (after, true)) × (c ≡ c')
finish-serving c c' after none e = cc
finish-serving c c' after (some (x, false)) e = cc
finish-serving c c' after (some (x, true)) e =
    let at_site : x ≡ after = cc in (ap (λ y. some (y, true)) at_site, cc)

start_with-serving :
    (a : Answers) (c c' : Config) (s after : Site)
    → start_with a c s ≡ some (after, serving c')
    → (c ≡ c') × ((a.answered ≡ false) ⊎ (after.initialized ≡ true))
unfolding start_with is_missing
start_with-serving a c c' s after e = elim (Bool-cases a.connected) [
  | inr down ↦ cc (rw (down, start_with) at e)
  | inl up ↦ (elim (Bool-cases (a.answered && not s.initialized)) [
    | inl missing ↦
        let (made, same) =
          finish-serving c c' after (init_database a.schema c s)
            (rw (up, start_with, missing) at e) in
        (same, inr (init_database-initialized a.schema c s after made))
    | inr present ↦
        let e' : some (s, serving c) ≡ some (after, serving c') =
          rw (up, start_with, present) at e in
        let at_site : s ≡ after = cc in
        (cc, subst (λ x. (a.answered ≡ false) ⊎ (x.initialized ≡ true)) at_site (ground arith))
  ])
]

with_key-IsComplete : (a : Answers) (c : Config) → IsComplete c → IsComplete (with_key a c)
unfolding with_key
with_key-IsComplete a c h = elim (Bool-cases (is_empty c.encryption_key)) [
  | inl none_given ↦
      rw (none_given, with_key)
        (record {
          has_host = h.has_host;
          has_name = h.has_name;
          has_user = h.has_user;
          has_password = h.has_password;
          has_binary = h.has_binary;
        })
  | inr given ↦ rw (given, with_key) h
]

is_empty-with_key :
    (a : Answers) (c : Config)
    → ((rs : Bytes) → a.random_bytes ≡ some rs → length rs ≡ 32)
    → is_empty (with_key a c).encryption_key ≡ false
unfolding with_key
is_empty-with_key a c full = elim (Bool-cases (is_empty c.encryption_key)) [
  | inl none_given ↦
      rw (none_given, with_key) (is_empty-generate_random_key a.random_bytes a.time full)
  | inr given ↦ rw (given, with_key) given
]

-- The daemon serves only with a configuration that names the database and the binary and has a key,
-- and, if the query for the tables is answered, on tables that are there.
pub start-serving :
    (a : Answers) (s after : Site) (c : Config)
    → ((rs : Bytes) → a.random_bytes ≡ some rs → length rs ≡ 32)
    → start_daemon a s ≡ some (after, serving c)
    → IsComplete c
      × (is_empty c.encryption_key ≡ false)
      × ((a.answered ≡ false) ⊎ (after.initialized ≡ true))
unfolding start_daemon
start-serving a s after c full e = elim (Option-cases (parse_config a.config)) [
  | inl unread ↦ cc (rw (unread, start_daemon) at e)
  | inr (d, parsed) ↦
      let (same, tables) =
        start_with-serving a (with_key a d) c s after (rw (parsed, start_daemon) at e) in
      (
        subst IsComplete same
            (with_key-IsComplete a d (parse_config-IsBounded a.config d parsed).1),
        subst (λ x. is_empty x.encryption_key ≡ false) same (is_empty-with_key a d full),
        tables,
      )
]
