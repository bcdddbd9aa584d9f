-- ===== src/Clients.antt =====
-- master/client_handler.c: revocation and download of a client's configuration, over the tables
-- vpn_client_profiles, vpn_config and vpn_revoked_certs.
pub mod Upserts
pub mod Issue
pub mod Issued
pub mod Keys
pub mod Revocation
use ovpn_manager.Prelude.{
  ℕ, Bool, true, false, List, [], ◌∷◌, ◌++◌, Option, none, some, ◌==◌, if◌then◌else◌, Bytes, codes,
  eqb, take,
}
use ovpn_manager.Prelude.Int.{ℤ, pos, negsuc}
use ovpn_manager.Prelude.Decimal.{decimal}
use ovpn_manager.Certs.{decrypt_private_key}
use ovpn_manager.Certs.X509.{Openssl}
use ovpn_manager.Schema.{VpnConfig, ClientProfile, Revoked, Tables, text}
use ovpn_manager.Authorities.Rows.{find_config}
use ovpn_manager.Requests.{
  respond, Params, string_of, number_of, Reply, error, ok, ok_data, Result, done, failed, ◌>>=◌,
  ◌>>◌, or_fail, require, answered, missing_parameters, no_client, not_decrypted, not_revoked,
  password_disabled,
}

-- Which statements the database accepts: the query, the INSERT, the UPDATE.
pub record Accepted : Type 0 where
  pub selected : Bool
  pub inserted : Bool
  pub updated : Bool

unfoldable pub find_client : ℕ → List ClientProfile → Option ClientProfile
find_client id [] = none
find_client id (p ∷ ps) = if p.id == id then some p else find_client id ps

-- UPDATE vpn_client_profiles SET revoked = TRUE WHERE id = %d
unfoldable pub set_revoked : ℕ → List ClientProfile → List ClientProfile
set_revoked id [] = []
set_revoked id (p ∷ ps) =
    (if p.id == id then record p { revoked = true } else p) ∷ set_revoked id ps

-- The row for an `int` id.
abbrev pub client_by : ℤ → List ClientProfile → Option ClientProfile
client_by (pos id) ps = find_client id ps
client_by (negsuc id) ps = none

-- `serial_str`
abbrev pub serial_text : Option Bytes → Bytes
serial_text none = codes "unknown"
serial_text (some hex) = take 127 hex

abbrev pub reason_text : Option Bytes → Bytes
reason_text none = codes "revoked by admin"
reason_text (some s) = s

-- The INSERT, and the UPDATE, whose result is not looked at.
unfoldable pub revoke : Bool → Bytes → Bytes → ClientProfile → Tables → Tables
unfolding set_revoked
revoke updated serial reason p db = record db {
  profiles = if updated then set_revoked p.id db.profiles else db.profiles;
  revocations =
      db.revocations ++ record { profile_id = p.id; serial = serial; reason = reason } ∷ [];
}

-- cp JOIN c ON cp.config_id = c.id, for the row `cp`.
pub record Joined : Type 0 where
  pub client_cert : Bytes
  pub client_key : Bytes
  pub config : VpnConfig

abbrev pub joined_with : ClientProfile → Option VpnConfig → Option Joined
joined_with p none = none
joined_with p (some c) =
    some (record { client_cert = p.client_cert; client_key = p.client_key; config = c })

abbrev pub joined_row : Option ClientProfile → List VpnConfig → Option Joined
joined_row none cs = none
joined_row (some p) cs = joined_with p (find_config p.config_id cs)

unfoldable pub join : ℤ → Tables → Option Joined
join id db = joined_row (client_by id db.profiles) db.configs

-- The format of `asprintf`: the lines behind `verb 3`, the CA's certificate, the client's, its key.
unfoldable pub client_config : VpnConfig → Bytes → Bytes → Bytes → Bytes → Bytes
client_config c extra ca_cert cert key =
    codes "client\ndev "
    ++ ((if eqb c.mode (codes "tap") then codes "tap" else codes "tun")
        ++ (codes "\nproto "
            ++ (c.proto
                ++ (codes "\nremote "
                    ++ (c.remote
                        ++ (codes " "
                            ++ (decimal c.port
                                ++ (codes
                                      "\nresolv-retry infinite\nnobind\npersist-key\npersist-tun\n"
                                    ++ (codes "remote-cert-tls server\ncipher AES-256-GCM\nverb 3\n"
                                        ++ (extra
                                            ++ (codes "<ca>\n"
                                                ++ (ca_cert
                                                    ++ (codes "\n</ca>\n<cert>\n"
                                                        ++ (cert
                                                            ++ (codes "\n</cert>\n<key>\n"
                                                            ++ (key
                                                            ++ codes "\n</key>\n"))))))))))))))))

module _ (o : Openssl) where
  open o use {pem, Cert, key_to_pem, serial_of, read_cert}

  -- The serial number of the certificate in a text.
  abbrev pub serial_in : Option Cert → Option Bytes
  serial_in none = none
  serial_in (some c) = serial_of c

  unfoldable pub revoke_client_cert : Accepted → Params → Tables → Result (Tables × Reply)
  revoke_client_cert a params db = do
    id ← or_fail missing_parameters (number_of (params (codes "client_profile_id")))
    let reason = reason_text (string_of (params (codes "reason")))
    p ← or_fail no_client (answered a.selected (client_by id db.profiles))
    require not_revoked a.inserted
    done (revoke a.updated (serial_text (serial_in (read_cert p.client_cert))) reason p db, ok)

  -- `get_client_config` from the row of its query on.
  unfoldable pub send : Bytes → Tables → Option Joined → Result (Tables × Reply)
  send encryption_key db found = do
    row ← or_fail no_client found
    pkey ← or_fail not_decrypted (decrypt_private_key pem encryption_key row.client_key none)
    done (
      db,
      ok_data
          (client_config row.config [] (text row.config.ca_cert) row.client_cert (key_to_pem pkey)),
    )

  unfoldable pub get_client_config : Accepted → Bytes → Params → Tables → Result (Tables × Reply)
  get_client_config a encryption_key params db = do
    cid ← or_fail missing_parameters (number_of (params (codes "client_id")))
    send encryption_key db (answered a.selected (join cid db))

  unfoldable pub handle_revoke_client_cert : Accepted → Params → Tables → Tables × Reply
  unfolding respond revoke_client_cert
  handle_revoke_client_cert a params db = respond db (revoke_client_cert a params db)

  unfoldable pub handle_get_client_config : Accepted → Bytes → Params → Tables → Tables × Reply
  unfolding respond get_client_config
  handle_get_client_config a k params db = respond db (get_client_config a k params db)

unfoldable pub handle_change_client_password : Params → Reply
handle_change_client_password params = error password_disabled
