-- ===== src/Config/Bounds.antt =====
-- Every string of the configuration fits its array, whatever the tokens are.
use ovpn_manager.Prelude.{
  subst, inl, inr, ℕ, ◌-◌, ◌≤◌, ◌<◌, ◌≡◌, ◌≢◌, refl, List, [], ◌∷◌, some, Bytes, length,
  length-take, arith, Option-cases,
}
use ovpn_manager.Config.{
  Config, Section, outside, database, log, openvpn, pki, Token, Parser, initial, safe_strcpy,
  assign, assign_database, assign_log, assign_openvpn, assign_pki, assign_top, level_of, step,
  scalar_in, enter, mapping_start, mapping_end, scalar, block_mapping_start, flow_mapping_start,
  block_end, flow_mapping_end, stream_end, scan, check_required, missing_database, ConfigFile,
  tokens, cannot_open, no_parser, parse_config,
}

-- The copy is terminated inside its array.
pub safe_strcpy_lt : (dest src : Bytes) (n : ℕ) → 0 < n → length (safe_strcpy dest src n) < n
unfolding safe_strcpy
safe_strcpy_lt dest src n h = ground (arith, length-take (n - 1) src)

pub record IsBounded (c : Config) : Type 0 where
  pub db_host : length c.db_host < 256
  pub db_name : length c.db_name < 256
  pub db_user : length c.db_user < 256
  pub db_password : length c.db_password < 256
  pub master_key_file : length c.master_key_file < 256
  pub encryption_key : length c.encryption_key < 64
  pub level : length c.log.level < 16
  pub file : length c.log.file < 256
  pub level_value : c.log.level_value ≤ 3
  pub binary : length c.openvpn.binary < 256
  pub config_dir : length c.openvpn.config_dir < 256
  pub management_socket : length c.openvpn.management_socket < 256
  pub ca_key : length c.pki_ca_key < 256
  pub listen_host : length c.listen_host < 64

copy_256 : (dest v : Bytes) → length (safe_strcpy dest v 256) < 256
copy_256 dest v = safe_strcpy_lt dest v 256 (omega arith)

copy_64 : (dest v : Bytes) → length (safe_strcpy dest v 64) < 64
copy_64 dest v = safe_strcpy_lt dest v 64 (omega arith)

copy_16 : (dest v : Bytes) → length (safe_strcpy dest v 16) < 16
copy_16 dest v = safe_strcpy_lt dest v 16 (omega arith)

level_of-le : (v : Bytes) → level_of v ≤ 3
unfolding level_of
level_of-le v = ground arith

assign-IsBounded :
    (s : Section) (c : Config) (k v : Bytes) → IsBounded c → IsBounded (assign s c k v)
unfolding assign assign_database assign_log assign_openvpn assign_pki assign_top
assign-IsBounded outside c k v b =
    ground
      (arith, copy_256 c.master_key_file v, copy_64 c.encryption_key v, copy_64 c.listen_host v)
assign-IsBounded database c k v b = ground (
  arith,
  copy_256 c.db_host v,
  copy_256 c.db_name v,
  copy_256 c.db_user v,
  copy_256 c.db_password v,
)
assign-IsBounded log c k v b =
    ground (arith, copy_16 c.log.level v, copy_256 c.log.file v, level_of-le v)
assign-IsBounded openvpn c k v b = ground (
  arith,
  copy_256 c.openvpn.binary v,
  copy_256 c.openvpn.config_dir v,
  copy_256 c.openvpn.management_socket v,
)
assign-IsBounded pki c k v b = ground (arith, copy_256 c.pki_ca_key v)

scalar-IsBounded :
    (s : Section) (p : Parser) (v : Bytes) → IsBounded p.config → IsBounded (scalar_in s p v).config
unfolding scalar_in
scalar-IsBounded outside p v b =
    ground (arith, assign-IsBounded outside p.config p.current_section v b)
scalar-IsBounded database p v b =
    ground (arith, assign-IsBounded database p.config p.current_key v b)
scalar-IsBounded log p v b = ground (arith, assign-IsBounded log p.config p.current_key v b)
scalar-IsBounded openvpn p v b = ground (arith, assign-IsBounded openvpn p.config p.current_key v b)
scalar-IsBounded pki p v b = ground (arith, assign-IsBounded pki p.config p.current_key v b)

-- Entering and leaving a mapping touch no field of the configuration.
enter-config : (s : Section) (p : Parser) → (enter s p).config ≡ p.config
unfolding enter
enter-config outside p = refl
enter-config _ p = refl

mapping_start-config : (s : Section) (p : Parser) → (mapping_start s p).config ≡ p.config
unfolding mapping_start
mapping_start-config outside p = enter-config _ _
mapping_start-config _ p = refl

mapping_end-config : (s : Section) (p : Parser) → (mapping_end s p).config ≡ p.config
unfolding mapping_end
mapping_end-config outside p = refl
mapping_end-config _ p = ground arith

step-IsBounded : (p : Parser) (t : Token) → IsBounded p.config → IsBounded (step p t).config
unfolding step
step-IsBounded p (scalar v) b = scalar-IsBounded p.in_section p v b
step-IsBounded p block_mapping_start b = rw (mapping_start-config p.in_section p) b
step-IsBounded p flow_mapping_start b = rw (mapping_start-config p.in_section p) b
step-IsBounded p block_end b = rw (mapping_end-config p.in_section p) b
step-IsBounded p flow_mapping_end b = rw (mapping_end-config p.in_section p) b
step-IsBounded p _ b = b

scan-IsBounded :
    (ts : List Token) (p : Parser) {c : Config}
    → IsBounded p.config
    → scan p ts ≡ some c
    → IsBounded c
unfolding scan
scan-IsBounded [] p b e = cc
scan-IsBounded (stream_end ∷ ts) p {c} b e = subst IsBounded {x = p.config} {y = c} (cc) b
scan-IsBounded (t ∷ ts) p b e = scan-IsBounded ts (step p t) (step-IsBounded p t b) e

-- What `parse_config` accepts names the database and the binary.
pub record IsComplete (c : Config) : Type 0 where
  pub has_host : c.db_host ≢ []
  pub has_name : c.db_name ≢ []
  pub has_user : c.db_user ≢ []
  pub has_password : c.db_password ≢ []
  pub has_binary : c.openvpn.binary ≢ []

check_required_lem : (c d : Config) → check_required c ≡ some d → IsComplete c × (c ≡ d)
unfolding check_required missing_database
check_required_lem c d e = ground arith

-- When `parse_config` returns 0, every string it has stored is terminated inside its array, the log
-- level is 0 to 3, and host, name, user and password of the database and the path of the openvpn
-- binary are not empty. This holds for every token list.
pub parse_config-IsBounded :
    (f : ConfigFile) (c : Config) → parse_config f ≡ some c → IsBounded c × IsComplete c
unfolding parse_config
parse_config-IsBounded cannot_open c e = cc
parse_config-IsBounded no_parser c e = cc
parse_config-IsBounded (tokens ts) c e = elim (Option-cases (scan initial ts)) [
  | inl none_e ↦ cc (rw (none_e, parse_config) at e)
  | inr (d, some_e) ↦
      let (full, same) = check_required_lem d c (rw (some_e, parse_config) at e) in
      (
        subst IsBounded same (scan-IsBounded ts initial (omega arith) some_e),
        subst IsComplete same full,
      )
]
