-- ===== src/Tests/ConfigTests.antt =====
-- master/config.c on a small configuration file.
use ovpn_manager.Prelude.{map, ◌≡◌, refl, none, some, List, [], ◌∷◌, codes, eqb}
use ovpn_manager.Prelude.Int.{pos, atoi}
use ovpn_manager.Config.{
  Config, default_config, tokens, key, value, block_mapping_start, block_end, stream_end, scalar,
  parse_config, check_required, assign, assign_top, assign_database, assign_log, assign_openvpn,
  assign_pki, section_of, safe_strcpy, level_of, scan, step,
}
use ovpn_manager.Config.Bounds.{IsBounded, IsComplete, parse_config-IsBounded}
use ovpn_manager.Config.Document.{Item, document_tokens}
use ovpn_manager.Config.Fields.{in_database, in_log, in_openvpn}
use ovpn_manager.Config.Settings.{Group, top, part, item}

abbrev groups : List Group
groups =
    top (codes "listen_port") (codes "8443")
    ∷ part in_database (
        (codes "host", codes "db")
        ∷ (codes "port", codes "5433")
        ∷ (codes "name", codes "vpn")
        ∷ (codes "user", codes "core")
        ∷ (codes "password", codes "secret")
        ∷ [])
    ∷ part in_log ((codes "level", codes "warn") ∷ [])
    ∷ part in_openvpn ((codes "binary", codes "/usr/sbin/openvpn") ∷ [])
    ∷ []

abbrev pub document : List Item
document = map item groups

abbrev pub parsed : Config
parsed = record default_config {
  db_host = codes "db";
  db_port = pos 5433;
  db_name = codes "vpn";
  db_user = codes "core";
  db_password = codes "secret";
  log = record {
    level = codes "warn";
    file = codes "/var/log/vpn-manager/core.log";
    level_value = 2;
  };
  openvpn = record { binary = codes "/usr/sbin/openvpn"; config_dir = []; management_socket = [] };
  listen_port = pos 8443;
}

pub parse_config-run : parse_config (tokens (document_tokens document)) ≡ some parsed
unfolding parse_config scan step check_required assign assign_top assign_database assign_log
    assign_openvpn assign_pki section_of safe_strcpy level_of eqb atoi
parse_config-run = refl

parse_config-IsBounded_example : IsBounded parsed × IsComplete parsed
parse_config-IsBounded_example =
    parse_config-IsBounded (tokens (document_tokens document)) parsed parse_config-run

-- The section `database` when clear_config_password has cleared its password: the key has no value.
cleared_run :
    parse_config (
      tokens (
        block_mapping_start
        ∷ key
        ∷ scalar (codes "database")
        ∷ value
        ∷ block_mapping_start
        ∷ key
        ∷ scalar (codes "host")
        ∷ value
        ∷ scalar (codes "db")
        ∷ key
        ∷ scalar (codes "name")
        ∷ value
        ∷ scalar (codes "vpn")
        ∷ key
        ∷ scalar (codes "user")
        ∷ value
        ∷ scalar (codes "core")
        ∷ key
        ∷ scalar (codes "password")
        ∷ value
        ∷ block_end
        ∷ key
        ∷ scalar (codes "openvpn")
        ∷ value
        ∷ block_mapping_start
        ∷ key
        ∷ scalar (codes "binary")
        ∷ value
        ∷ scalar (codes "/usr/sbin/openvpn")
        ∷ block_end
        ∷ block_end
        ∷ stream_end
        ∷ []))
    ≡ none
unfolding parse_config scan step check_required assign assign_top assign_database assign_log
    assign_openvpn assign_pki section_of safe_strcpy level_of eqb atoi
cleared_run = refl
