-- ===== src/Authorities.antt =====
-- master/ca_handler.c: the handlers for CA certificates
-- over the tables vpn_ca and vpn_config. OpenSSL is a parameter.
pub mod Rows
pub mod Anchors
pub mod Chosen
pub mod Soundness
pub mod Signing
use ovpn_manager.Prelude.{
  ℕ, ◌*◌, ◌-◌, suc, ◌≡◌, Bool, true, false, not, ◌&&◌, Option, none, some, if◌then◌else◌, Bytes,
  codes, is_empty,
}
use ovpn_manager.Prelude.Int.{ℤ, pos, negsuc}
use ovpn_manager.Certs.{Pem, decrypt_private_key, encrypt_private_key, fingerprint_to_hex}
use ovpn_manager.Certs.X509.{Openssl, Template, Crypto, seconds, sign_certificate}
use ovpn_manager.Schema.{Authority, Tables, text}
use ovpn_manager.Requests.{
  respond, Json, number, string, other, Params, string_of, number_of, number_or, Message,
  missing_parameters, no_key, no_certificate, not_signed, no_digest, not_encrypted, not_stored,
  no_authority, not_parsed, not_decrypted, no_fingerprint, in_use, not_deleted, Reply, error, ok,
  ok_fingerprint, Result, done, failed, ◌>>=◌, ◌>>◌, or_fail, require, answered,
}
use ovpn_manager.Authorities.Rows.{
  find_by, delete_by, chosen, latest, is_referenced, upsert, update_config,
}

-- The answers to one request: of OpenSSL, and of the database, to the first query, to the query
-- for references, and to the statement that writes.
pub record Answers (o : Openssl) : Type 0 where
  pub crypto : Crypto o
  pub open crypto use *
  pub selected : Bool
  pub referenced : Bool
  pub written : Bool
  pub now : ℕ

module _ (o : Openssl) where
  open o use {pem, Name, no_name, add_entry, Cert, subject, cert_to_pem, read_cert, digest}
  open pem use {Key}

  -- The certificate that `handle_generate_ca_cert` signs with its own key.
  abbrev pub ca_template : Answers o → Bytes → ℤ → Key → Template Name Key
  ca_template a cn days key =
      let name = add_entry (add_entry no_name (codes "CN") cn) (codes "O") (codes "VPN CA") in
      record {
        serial = a.serial;
        lifetime = seconds days;
        key = key;
        issuer = name;
        subject = name;
        basic_constraints = codes "critical,CA:TRUE";
        key_usage = some (codes "critical,keyCertSign,cRLSign,digitalSignature");
      }

  -- `fingerprint_hex`, empty where the digest fails.
  abbrev pub fingerprint : Answers o → Cert → Bytes
  fingerprint a cert = if a.digested then fingerprint_to_hex (digest cert) else codes ""

  unfoldable pub generate_ca_cert : Answers o → Bytes → Params → Tables → Result (Tables × Reply)
  generate_ca_cert a encryption_key params db = do
    cn ← or_fail missing_parameters (string_of (params (codes "common_name")))
    let days = number_or (pos 3650) (params (codes "valid_days"))
    ca_key ← or_fail no_key (a.new_key 4096)
    require no_certificate a.new_cert
    ca_cert ← or_fail not_signed (a.sign (ca_template a cn days ca_key) ca_key)
    require no_digest a.digested
    let fingerprint_hex = fingerprint_to_hex (digest ca_cert)
    encrypted ← or_fail not_encrypted (encrypt_private_key pem encryption_key ca_key none)
    require not_stored a.written
    done (
      upsert (cert_to_pem ca_cert) cn encrypted fingerprint_hex a.now db,
      ok_fingerprint fingerprint_hex,
    )

  unfoldable pub sign_server_cert : Answers o → Bytes → Params → Tables → Result (Tables × Reply)
  sign_server_cert a encryption_key params db = do
    cfg_id ← or_fail missing_parameters (number_of (params (codes "config_id")))
    cn ← or_fail missing_parameters (string_of (params (codes "common_name")))
    let days = number_or (pos 365) (params (codes "valid_days"))
    let ca_id = number_of (params (codes "ca_id"))
    row ← or_fail no_authority (answered a.selected (chosen ca_id db.authorities))
    ca_cert ← or_fail not_parsed (read_cert row.ca_cert)
    ca_key ← or_fail not_decrypted (decrypt_private_key pem encryption_key row.ca_key none)
    server_key ← or_fail no_key (a.new_key 4096)
    server_cert ← or_fail not_signed (sign_certificate o a.crypto ca_key ca_cert server_key cn days)
    encrypted ← or_fail not_encrypted (encrypt_private_key pem encryption_key server_key none)
    require not_stored a.written
    done (
      update_config cfg_id (cert_to_pem server_cert) encrypted row.ca_cert (fingerprint a ca_cert)
          db,
      ok,
    )

  unfoldable pub delete_ca_cert : Answers o → Bytes → Params → Tables → Result (Tables × Reply)
  delete_ca_cert a encryption_key params db = do
    id ← or_fail missing_parameters (number_of (params (codes "ca_id")))
    row ← or_fail no_authority (answered a.selected (find_by id db.authorities))
    require no_fingerprint (not (is_empty (text row.ca_fingerprint)))
    require in_use (not (a.referenced && is_referenced (text row.ca_fingerprint) db.configs))
    ca_key ← or_fail not_decrypted (decrypt_private_key pem encryption_key row.ca_key none)
    require not_deleted a.written
    done (record db { authorities = delete_by id db.authorities }, ok)

  unfoldable pub handle_generate_ca_cert : Answers o → Bytes → Params → Tables → Tables × Reply
  unfolding respond generate_ca_cert
  handle_generate_ca_cert a k params db = respond db (generate_ca_cert a k params db)

  unfoldable pub handle_sign_server_cert : Answers o → Bytes → Params → Tables → Tables × Reply
  unfolding respond sign_server_cert
  handle_sign_server_cert a k params db = respond db (sign_server_cert a k params db)

  unfoldable pub handle_delete_ca_cert : Answers o → Bytes → Params → Tables → Tables × Reply
  unfolding respond delete_ca_cert
  handle_delete_ca_cert a k params db = respond db (delete_ca_cert a k params db)

  -- Where there is a row, its texts are read behind PQclear, which frees them: the reply is not
  -- defined.
  unfoldable pub handle_get_ca_cert : Answers o → Tables → Option Reply
  handle_get_ca_cert a db = elim (answered a.selected (latest db.authorities)) [
    | none ↦ some (error no_authority)
    | some row ↦ none
  ]

  -- One request to a handler, with the answers that it gets.
  pub data Request : Type 0 where
    generate sign delete : Answers o → Params → Request

  unfoldable pub handle : Bytes → Request → Tables → Tables × Reply
  unfolding handle_generate_ca_cert handle_sign_server_cert handle_delete_ca_cert
  handle encryption_key (generate a params) db = handle_generate_ca_cert a encryption_key params db
  handle encryption_key (sign a params) db = handle_sign_server_cert a encryption_key params db
  handle encryption_key (delete a params) db = handle_delete_ca_cert a encryption_key params db
