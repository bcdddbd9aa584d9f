-- ===== src/Tests/GenerateTests.antt =====
-- The files for two configurations, and the texts of arrays and certificates.
use ovpn_manager.Prelude.{
  ℕ, List, contains, ◌≡◌, refl, ◌↔◌, true, false, ◌&&◌, [], ◌∷◌, ◌++◌, Option, none, some, ◌==◌,
  if◌then◌else◌, arith, Bytes, codes, eqb, is_empty, concat, map,
}
use ovpn_manager.Certs.{decrypt_private_key}
use ovpn_manager.Schema.{VpnConfig, Tables}
use ovpn_manager.Authorities.Rows.{find_config}
use ovpn_manager.Generate.{
  absent, Files, Answers, prepare_dh, server_key_text, mode_config, generate_openvpn_config,
}
use ovpn_manager.Generate.Text.{out_of_bounds, write_cert_file, push_array}
use ovpn_manager.Generate.Arrays.{is_word, joined, array_text, push_array-array_text}
use ovpn_manager.Generate.CertFiles.{all_cr, write_cert_file-out_of_bounds}
use ovpn_manager.Generate.Shared.{
  is_found, file_of, file_text, dh_ready, generate_openvpn_config_lem,
  generate_openvpn_config_shared,
}
use ovpn_manager.Tests.AuthorityTests.{toy_openssl, config_row, one_ca}

abbrev routes : List Bytes
routes = codes "10.1.0.0/16" ∷ codes "10.2.0.0 255.255.0.0" ∷ []

-- The quotes of the second route end the directive early.
routes_run :
    push_array (codes "push \"route ") (codes "\"\n") (array_text routes)
    ≡ codes "push \"route 10.1.0.0/16\"\npush \"route \"10.2.0.0 255.255.0.0\"\"\n"
unfolding push_array eqb array_text joined
routes_run = refl

push_array-array_text_example :
    push_array (codes "push \"route ") (codes "\"\n") (array_text routes)
    ≡ concat (
        map
          (λ t.
            codes "push \"route "
            ++ ((if contains b' ' t then 34 ∷ (t ++ (34 ∷ [])) else t) ++ codes "\"\n"))
          routes)
unfolding is_word
push_array-array_text_example =
    push_array-array_text (codes "push \"route ") (codes "\"\n") routes (refl, (refl, tt))

push_array_run : push_array (codes "<") (codes ">") (codes "{a, b,,c}") ≡ codes "<a><b><c>"
unfolding push_array eqb
push_array_run = refl

write_cert_file-out_of_bounds_example :
    (write_cert_file true (13 ∷ 13 ∷ []) ≡ out_of_bounds)
    ↔ ((true ≡ true) × (is_empty (13 ∷ 13 ∷ []) ≡ false) × (all_cr (13 ∷ 13 ∷ []) ≡ true))
write_cert_file-out_of_bounds_example = write_cert_file-out_of_bounds true (13 ∷ 13 ∷ [])

abbrev pub no_inet : Bytes → Option ℕ
no_inet s = none

abbrev pub no_files : Files
no_files = record {
  ca_crt = none;
  server_crt = none;
  server_key = none;
  dh = absent;
  conf = λ id. none;
  commands = [];
}

abbrev pub all_well : Answers
all_well = record {
  selected = true;
  tun_row = none;
  tap_row = none;
  ca_opened = true;
  cert_opened = true;
  key_opened = true;
  key_printed = true;
  dh_opened = true;
  dh_made = true;
  conf_opened = true;
  command = λ c. true;
}

abbrev no_dh : Answers
no_dh = record all_well { dh_made = false }

abbrev first_config : VpnConfig
first_config = record config_row { server_key = some (5 ∷ 1 ∷ codes "system") }

abbrev second_config : VpnConfig
second_config = record config_row { id = 4; server_key = some (8 ∷ 1 ∷ codes "system") }

abbrev two_configs : Tables
two_configs = record one_ca { configs = first_config ∷ second_config ∷ [] }

generate_openvpn_config_lem_example :
    let (after, success) =
      generate_openvpn_config toy_openssl no_inet all_well
        (codes "system")
        3
        two_configs
        no_files in
    let row = find_config 3 two_configs.configs in
    (success
      ≡ (all_well.selected && (is_found row && (dh_ready all_well absent && all_well.conf_opened))))
    × (after.conf 3 ≡ (
        if success && 3 == 3
        then file_of
            (λ c.
              file_text toy_openssl no_inet 3 c (mode_config toy_openssl no_inet all_well 3 c.mode))
            row
        else none))
generate_openvpn_config_lem_example =
    generate_openvpn_config_lem toy_openssl no_inet all_well (codes "system") 3 two_configs no_files
      3

generate_openvpn_config_shared_example :
    let after =
      (generate_openvpn_config toy_openssl no_inet all_well
        (codes "system")
        4
        two_configs
        (generate_openvpn_config toy_openssl no_inet all_well
          (codes "system")
          3
          two_configs
          no_files).0).0 in
    ((before : Bytes) × (rest : Bytes) × (after.conf 3
        ≡ some (before ++ (codes "\nkey /etc/openvpn/server.key\n" ++ rest))))
    × (after.server_key ≡ some (8 ∷ 10 ∷ []))
unfolding find_config generate_openvpn_config server_key_text decrypt_private_key write_cert_file
    eqb prepare_dh
generate_openvpn_config_shared_example =
    generate_openvpn_config_shared toy_openssl no_inet all_well all_well (codes "system") 3 4
      two_configs no_files first_config second_config (8 ∷ 10 ∷ []) refl refl (omega arith) refl
      refl refl
