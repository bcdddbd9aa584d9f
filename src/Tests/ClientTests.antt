-- ===== src/Tests/ClientTests.antt =====
-- An issue, a revocation and a download on concrete tables.
use ovpn_manager.Prelude.{
  ◌≡◌, refl, true, false, [], ◌∷◌, ◌++◌, none, some, Bytes, codes, eqb, if◌then◌else◌,
}
use ovpn_manager.Prelude.Int.{pos}
use ovpn_manager.Prelude.Decimal.{decimal}
use ovpn_manager.Certs.{decrypt_private_key}
use ovpn_manager.Schema.{VpnConfig, ClientProfile, Tables}
use ovpn_manager.Requests.{Params, number, string, ok_data, ◌>>=◌, ◌>>◌, or_fail, require, respond}
use ovpn_manager.Authorities.Rows.{find_config}
use ovpn_manager.Clients.{
  Accepted, find_client, join, client_config, send, revoke_client_cert, get_client_config,
  handle_revoke_client_cert, handle_get_client_config,
}
use ovpn_manager.Clients.Issue.{Answers}
use ovpn_manager.Clients.Revocation.{handle_get_client_config-revoke, handle_revoke_client_cert_lem}
use ovpn_manager.Tests.AuthorityTests.{toy_openssl, toy_crypto, config_row, one_ca}

abbrev alice : ClientProfile
alice = record {
  id = 7;
  user_id = 1;
  config_id = 3;
  assigned_ip = none;
  use_static_ip = false;
  client_cert = 67 ∷ [];
  client_key = 9 ∷ 1 ∷ codes "system";
  revoked = false;
}

abbrev office : VpnConfig
office = record config_row { ca_cert = some (codes "CA") }

abbrev clients : Tables
clients = record one_ca { profiles = alice ∷ []; configs = office ∷ [] }

abbrev id_params : Bytes → Params
id_params name key = if eqb key name then some (number (pos 7)) else none

abbrev pub accepted : Accepted
accepted = record { selected = true; inserted = true; updated = true }

handle_get_client_config-revoke_example :
    (handle_get_client_config toy_openssl accepted
      (codes "system")
      (id_params (codes "client_id"))
      (handle_revoke_client_cert toy_openssl accepted
        (id_params (codes "client_profile_id"))
        clients).0).1
    ≡ (handle_get_client_config toy_openssl accepted
        (codes "system")
        (id_params (codes "client_id"))
        clients).1
handle_get_client_config-revoke_example =
    handle_get_client_config-revoke toy_openssl accepted accepted (codes "system")
      (id_params (codes "client_id")) (id_params (codes "client_profile_id")) clients

handle_revoke_client_cert_lem_example :
    let after =
      (handle_revoke_client_cert toy_openssl accepted
        (id_params (codes "client_profile_id"))
        clients).0 in
    (after.revocations
      ≡ record { profile_id = 7; serial = codes "ABC"; reason = codes "revoked by admin" } ∷ [])
    × (find_client 7 after.profiles ≡ some (record alice { revoked = true }))
unfolding handle_revoke_client_cert revoke_client_cert respond ◌>>=◌ ◌>>◌ or_fail require eqb
    find_client
handle_revoke_client_cert_lem_example =
    handle_revoke_client_cert_lem toy_openssl accepted (id_params (codes "client_profile_id"))
      clients 7 alice 7 refl refl refl

download_run :
    (handle_get_client_config toy_openssl accepted
      (codes "system")
      (id_params (codes "client_id"))
      clients).1
    ≡ ok_data (
        codes "client\ndev tap\nproto udp\nremote vpn.example.org 1194\n"
        ++ codes "resolv-retry infinite\nnobind\npersist-key\npersist-tun\n"
        ++ codes "remote-cert-tls server\ncipher AES-256-GCM\nverb 3\n<ca>\nCA\n</ca>\n"
        ++ codes "<cert>\nC\n</cert>\n<key>\n\t\n</key>\n")
unfolding handle_get_client_config get_client_config respond ◌>>=◌ or_fail eqb join find_client
    find_config send client_config decrypt_private_key decimal
download_run = refl

abbrev issue_params : Params
issue_params key =
    if eqb key (codes "username")
    then some (string (codes "bob"))
    else if eqb key (codes "config_id")
    then some (number (pos 3))
    else none

abbrev pub issue_answers : Answers toy_openssl
issue_answers = record {
  crypto = toy_crypto;
  selected = true;
  joined = true;
  key_selected = true;
  user_stored = true;
  profile_stored = true;
}

abbrev sent_text : Bytes
sent_text =
    codes "client\ndev tap\nproto udp\nremote vpn.example.org 1194\n"
    ++ codes "resolv-retry infinite\nnobind\npersist-key\npersist-tun\n"
    ++ codes "remote-cert-tls server\ncipher AES-256-GCM\nverb 3\npull\n<ca>\n*\n</ca>\n"
    ++ codes "<cert>\n"
    ++ 14 ∷ codes "\n</cert>\n<key>\n"
    ++ 5 ∷ 1 ∷ codes "system\n</key>\n"
