-- ===== src/Config.antt =====
-- master/config.c and include/config.h: the configuration and the YAML token machine of
-- `parse_config`. A token list stands for what `yaml_parser_scan` yields until it fails.
pub mod Bounds
pub mod Document
pub mod Fields
pub mod Settings
pub mod Steps
use ovpn_manager.Prelude.{
  ℕ, ◌-◌, ◌≡◌, Bool, true, false, ◌||◌, List, [], ◌∷◌, Option, none, some, ◌==◌, if◌then◌else◌,
  Bytes, codes, eqb, is_empty, take, arith,
}
use ovpn_manager.Prelude.Int.{ℤ, pos, negsuc, inc, dec, eqb_ℤ, atoi}

-- `safe_strcpy` on the contents of `dest`: at most `dest_size - 1` bytes of `src`, and a NUL.
unfoldable pub safe_strcpy : Bytes → Bytes → ℕ → Bytes
safe_strcpy dest src dest_size = if dest_size == 0 then dest else take (dest_size - 1) src

pub record LogConfig : Type 0 where
  pub level : Bytes
  pub file : Bytes
  pub level_value : ℕ

pub record OpenvpnConfig : Type 0 where
  pub binary : Bytes
  pub config_dir : Bytes
  pub management_socket : Bytes

-- `core_config_t`; the struct `pki` has the one field `ca_key`.
pub record Config : Type 0 where
  pub db_host : Bytes
  pub db_port : ℤ
  pub db_name : Bytes
  pub db_user : Bytes
  pub db_password : Bytes
  pub master_key_file : Bytes
  pub encryption_key : Bytes
  pub log : LogConfig
  pub openvpn : OpenvpnConfig
  pub pki_ca_key : Bytes
  pub listen_port : ℤ
  pub listen_host : Bytes

-- `in_section`: 0 to 4.
pub data Section : Type 0 where
  outside database log openvpn pki : Section

pub data Token : Type 0 where
  key value block_mapping_start flow_mapping_start block_end flow_mapping_end : Token
  stream_end other : Token
  scalar : Bytes → Token

pub record Parser : Type 0 where
  pub config : Config
  pub depth : ℤ
  pub in_section : Section
  pub target_depth : ℤ
  pub expect_key : Bool
  pub current_key : Bytes
  pub current_section : Bytes

abbrev pub default_config : Config
default_config = record {
  db_host = [];
  db_port = pos 5432;
  db_name = [];
  db_user = [];
  db_password = [];
  master_key_file = [];
  encryption_key = [];
  log = record {
    level = codes "info";
    file = codes "/var/log/vpn-manager/core.log";
    level_value = 1;
  };
  openvpn = record { binary = []; config_dir = []; management_socket = [] };
  pki_ca_key = [];
  listen_port = pos 0;
  listen_host = codes "0.0.0.0";
}

abbrev pub initial : Parser
initial = record {
  config = default_config;
  depth = pos 0;
  in_section = outside;
  target_depth = pos 0;
  expect_key = false;
  current_key = [];
  current_section = [];
}

unfoldable pub assign_database : Config → Bytes → Bytes → Config
assign_database c k v =
    if eqb k (codes "host")
    then record c { db_host = safe_strcpy c.db_host v 256 }
    else if eqb k (codes "port")
    then record c { db_port = atoi v }
    else if eqb k (codes "name")
    then record c { db_name = safe_strcpy c.db_name v 256 }
    else if eqb k (codes "user")
    then record c { db_user = safe_strcpy c.db_user v 256 }
    else if eqb k (codes "password")
    then record c { db_password = safe_strcpy c.db_password v 256 }
    else c

unfoldable pub level_of : Bytes → ℕ
level_of v =
    if eqb v (codes "debug")
    then 0
    else if eqb v (codes "info")
    then 1
    else if eqb v (codes "warn")
    then 2
    else if eqb v (codes "error")
    then 3
    else 1

unfoldable pub assign_log : Config → Bytes → Bytes → Config
assign_log c k v =
    if eqb k (codes "level")
    then record c {
      log = record (c.log) { level = safe_strcpy c.log.level v 16; level_value = level_of v };
    }
    else if eqb k (codes "file")
    then record c { log = record (c.log) { file = safe_strcpy c.log.file v 256 } }
    else c

unfoldable pub assign_openvpn : Config → Bytes → Bytes → Config
assign_openvpn c k v =
    if eqb k (codes "binary")
    then record c { openvpn = record (c.openvpn) { binary = safe_strcpy c.openvpn.binary v 256 } }
    else if eqb k (codes "config_dir")
    then record c {
      openvpn = record (c.openvpn) { config_dir = safe_strcpy c.openvpn.config_dir v 256 };
    }
    else if eqb k (codes "management_socket")
    then record c {
      openvpn = record (c.openvpn) {
        management_socket = safe_strcpy c.openvpn.management_socket v 256;
      };
    }
    else c

unfoldable pub assign_pki : Config → Bytes → Bytes → Config
assign_pki c k v =
    if eqb k (codes "ca_key") then record c { pki_ca_key = safe_strcpy c.pki_ca_key v 256 } else c

unfoldable pub assign_top : Config → Bytes → Bytes → Config
assign_top c k v =
    if eqb k (codes "master_key_file")
    then record c { master_key_file = safe_strcpy c.master_key_file v 256 }
    else if eqb k (codes "encryption_key")
    then record c { encryption_key = safe_strcpy c.encryption_key v 64 }
    else if eqb k (codes "listen_port")
    then record c { listen_port = atoi v }
    else if eqb k (codes "listen_host")
    then record c { listen_host = safe_strcpy c.listen_host v 64 }
    else c

-- The value of `key` in a section; outside, `key` is the last top-level key.
unfoldable pub assign : Section → Config → Bytes → Bytes → Config
assign outside = assign_top
assign database = assign_database
assign log = assign_log
assign openvpn = assign_openvpn
assign pki = assign_pki

-- `case YAML_SCALAR_TOKEN`
scalar_in : Section → Parser → Bytes → Parser
scalar_in outside p v =
    if p.expect_key
    then record p { current_section = safe_strcpy p.current_section v 64 }
    else record p { config = assign outside p.config p.current_section v }
scalar_in s p v =
    if p.expect_key
    then record p { current_key = safe_strcpy p.current_key v 256 }
    else record p { config = assign s p.config p.current_key v }

-- The section that a key names.
unfoldable pub section_of : Bytes → Section
section_of k =
    if eqb k (codes "database")
    then database
    else if eqb k (codes "log")
    then log
    else if eqb k (codes "openvpn")
    then openvpn
    else if eqb k (codes "pki")
    then pki
    else outside

-- A mapping that starts outside every section enters the one that the last key names.
pub enter : Section → Parser → Parser
enter outside p = p
enter s p = record p { in_section = s; target_depth = p.depth }

mapping_start : Section → Parser → Parser
mapping_start outside p = enter (section_of p.current_section) (record p { depth = inc p.depth })
mapping_start s p = record p { depth = inc p.depth }

mapping_end : Section → Parser → Parser
mapping_end outside p = record p { depth = dec p.depth }
mapping_end s p =
    if eqb_ℤ p.depth p.target_depth
    then record p { in_section = outside; depth = dec p.depth }
    else record p { depth = dec p.depth }

-- One round of the loop's `switch`, for every token but the end of the stream.
unfoldable pub step : Parser → Token → Parser
unfolding scalar_in mapping_start mapping_end enter
step p key = record p { expect_key = true }
step p value = record p { expect_key = false }
step p (scalar v) = scalar_in p.in_section p v
step p block_mapping_start = mapping_start p.in_section p
step p flow_mapping_start = mapping_start p.in_section p
step p block_end = mapping_end p.in_section p
step p flow_mapping_end = mapping_end p.in_section p
step p stream_end = p
step p other = p

-- The loop. `none` when the scanner fails before the end of the stream.
unfoldable pub scan : Parser → List Token → Option Config
scan p [] = none
scan p (stream_end ∷ ts) = some p.config
scan p (t ∷ ts) = scan (step p t) ts

-- The checks behind the loop.
unfoldable pub missing_database : Config → Bool
missing_database c =
    is_empty c.db_host || is_empty c.db_name || is_empty c.db_user || is_empty c.db_password

unfoldable pub check_required : Config → Option Config
unfolding missing_database
check_required c =
    if missing_database c then none else if is_empty c.openvpn.binary then none else some c

pub data ConfigFile : Type 0 where
  cannot_open no_parser : ConfigFile
  tokens : List Token → ConfigFile

-- The configuration when `parse_config` returns 0, and `none` when it returns -1.
unfoldable pub parse_config : ConfigFile → Option Config
parse_config cannot_open = none
parse_config no_parser = none
parse_config (tokens ts) = elim (scan initial ts) [ none ↦ none | some c ↦ check_required c ]
