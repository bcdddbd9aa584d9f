-- ===== src/Tests/AuthorityTests.antt =====
-- Requests to the CA handlers, over a toy OpenSSL: a certificate is a number, the signing key plus
-- the certified one.
use ovpn_manager.Prelude.{
  ℕ, ◌+◌, ◌≡◌, refl, true, false, [], ◌∷◌, ◌++◌, Option, none, some, Bytes, codes, eqb,
  if◌then◌else◌,
}
use ovpn_manager.Prelude.Int.{pos}
use ovpn_manager.Certs.{fingerprint_to_hex, decrypt_private_key, encrypt_private_key}
use ovpn_manager.Schema.{Authority, VpnConfig, Tables}
use ovpn_manager.Certs.X509.{Openssl, Crypto, sign_certificate}
use ovpn_manager.Requests.{respond}
use ovpn_manager.Authorities.{
  Answers, handle_sign_server_cert, handle_delete_ca_cert, sign_server_cert,
}
use ovpn_manager.Requests.{Params, number, string, ok, ◌>>=◌, ◌>>◌, or_fail, require}
use ovpn_manager.Authorities.Rows.{
  find_by, is_referenced, latest, newest, update_config, find_authority, find_config,
}
use ovpn_manager.Authorities.Anchors.{is_anchored, is_vouched, is_keyed, ids_below, has_id}
use ovpn_manager.Authorities.Soundness.{IsSound}
use ovpn_manager.Authorities.Signing.{
  handle_sign_server_cert_absent, handle_delete_ca_cert_unanswered,
}
use ovpn_manager.Tests.TextTests.{toy}

abbrev pub toy_read_cert : Bytes → Option ℕ
toy_read_cert (c ∷ []) = some c
toy_read_cert _ = none

abbrev pub toy_openssl : Openssl
toy_openssl = record {
  pem = toy;
  Name = Bytes;
  no_name = [];
  add_entry = λ name field value. name ++ field ++ value;
  Cert = ℕ;
  subject = λ c. c ∷ [];
  cert_to_pem = λ c. c ∷ [];
  read_cert = toy_read_cert;
  digest = λ c. c ∷ [];
  serial_of = λ c. some (codes "AB" ++ (c ∷ []));
  key_to_pem = λ k. k ∷ [];
  read-cert_to_pem = λ c. refl;
}

abbrev pub toy_crypto : Crypto toy_openssl
toy_crypto = record {
  new_key = λ bits. some 5;
  new_cert = true;
  serial = 1;
  sign = λ t k. some (t.key + k);
  digested = true;
}

abbrev pub toy_answers : Answers toy_openssl
toy_answers = record {
  crypto = toy_crypto;
  selected = true;
  referenced = true;
  written = true;
  now = 60;
}

abbrev pub ca_row : Authority
ca_row = record {
  id = 1;
  common_name = codes "root";
  ca_cert = 42 ∷ [];
  ca_key = 9 ∷ 1 ∷ codes "system";
  ca_fingerprint = some (codes "2A");
  created_at = 10;
}

abbrev pub config_row : VpnConfig
config_row = record {
  id = 3;
  mode = codes "tap";
  proto = codes "udp";
  port = 1194;
  remote = codes "vpn.example.org";
  ca_cert = none;
  ca_fingerprint = some (codes "2A");
  server_cert = none;
  server_key = none;
  status = codes "stopped";
}

abbrev pub one_ca : Tables
one_ca = record {
  authorities = ca_row ∷ [];
  configs = config_row ∷ [];
  users = [];
  profiles = [];
  revocations = [];
  next_id = 2;
  next_user = 1;
  next_profile = 1;
}

abbrev sign_params : ℕ → Params
sign_params id key =
    if eqb key (codes "config_id")
    then some (number (pos id))
    else if eqb key (codes "common_name")
    then some (string (codes "vpn"))
    else none

abbrev pub delete_params : Params
delete_params key = if eqb key (codes "ca_id") then some (number (pos 1)) else none

abbrev signed_row : VpnConfig
signed_row = record config_row {
  server_cert = some (14 ∷ []);
  server_key = some (5 ∷ 1 ∷ codes "system");
  ca_cert = some (42 ∷ []);
}

sign_run :
    handle_sign_server_cert toy_openssl toy_answers (codes "system") (sign_params 3) one_ca
    ≡ (record one_ca { configs = signed_row ∷ [] }, ok)
unfolding handle_sign_server_cert sign_server_cert ◌>>=◌ ◌>>◌ or_fail require respond eqb latest
    newest sign_certificate decrypt_private_key encrypt_private_key find_config update_config
    fingerprint_to_hex
sign_run = refl

pub one_ca-IsSound : IsSound toy_openssl one_ca
unfolding is_anchored is_vouched eqb is_keyed ids_below has_id fingerprint_to_hex
one_ca-IsSound = record { anchored = refl; certified = (λ c e. cc, tt); keyed = refl; below = refl }

handle_sign_server_cert_absent_example :
    handle_sign_server_cert toy_openssl toy_answers (codes "system") (sign_params 8) one_ca
    ≡ (one_ca, ok)
unfolding eqb latest newest decrypt_private_key encrypt_private_key sign_certificate find_config
handle_sign_server_cert_absent_example =
    handle_sign_server_cert_absent toy_openssl toy_answers (codes "system") (sign_params 8) one_ca 8
      (codes "vpn") (5 ∷ 1 ∷ codes "system") ca_row 42 14 9 5 refl refl refl refl refl refl refl
      refl refl refl refl

abbrev unanswered : Answers toy_openssl
unanswered = record toy_answers { referenced = false }

handle_delete_ca_cert_unanswered_example :
    let after =
      handle_delete_ca_cert toy_openssl unanswered (codes "system") delete_params one_ca in
    (after.1 ≡ ok)
    × (find_by (pos 1) after.0.authorities ≡ none)
    × (is_referenced (codes "2A") after.0.configs ≡ true)
unfolding eqb find_authority decrypt_private_key is_referenced
handle_delete_ca_cert_unanswered_example =
    handle_delete_ca_cert_unanswered toy_openssl unanswered (codes "system") delete_params one_ca
      (pos 1) ca_row 9 refl refl refl refl refl refl refl refl
