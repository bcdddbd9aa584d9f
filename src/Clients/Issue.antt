-- ===== src/Clients/Issue.antt =====
-- master/client_handler.c, handle_gen_client_cert: the issue of a client's certificate.
use ovpn_manager.Prelude.{
  ℕ, suc, Bool, true, false, not, ◌&&◌, List, [], ◌∷◌, Option, none, some, ◌==◌, ltb, if◌then◌else◌,
  Bytes, codes, eqb, is_empty, length,
}
use ovpn_manager.Prelude.Int.{pos}
use ovpn_manager.Certs.{decrypt_private_key, encrypt_private_key}
use ovpn_manager.Certs.X509.{Openssl, Crypto, sign_certificate}
use ovpn_manager.Schema.{Authority, VpnConfig, User, ClientProfile, Tables, text}
use ovpn_manager.Requests.{
  Params, string_of, number_of, number_or, Reply, error, ok_profile, Result, ◌>>=◌, ◌>>◌, done,
  or_fail, require, answered, respond, missing_parameters, no_config, no_ca_cert, no_fingerprint,
  no_ca_key, not_parsed, not_decrypted, no_key, not_signed, not_encrypted, not_stored,
}
use ovpn_manager.Authorities.Rows.{equals, config_by}
use ovpn_manager.Clients.{client_config}

-- The answers to one request: of OpenSSL, and of the database, to the query for the configuration,
-- to the two for the CA, and to the two statements that write.
pub record Answers (o : Openssl) : Type 0 where
  pub crypto : Crypto o
  pub selected : Bool
  pub joined : Bool
  pub key_selected : Bool
  pub user_stored : Bool
  pub profile_stored : Bool

-- The first row of vpn_ca with a fingerprint.
unfoldable pub find_fingerprint : Bytes → List Authority → Option Authority
find_fingerprint fp [] = none
find_fingerprint fp (r ∷ rs) = if equals r.ca_fingerprint fp then some r else find_fingerprint fp rs

-- c JOIN ca ON c.ca_fingerprint = ca.ca_fingerprint, for the row `c`.
abbrev pub joined_ca : Option Bytes → List Authority → Option Authority
joined_ca none rs = none
joined_ca (some fp) rs = find_fingerprint fp rs

-- `ca_cert_pem`: the configuration's, or that of vpn_ca where it has less than 100 bytes.
abbrev pub ca_cert_text : Bool → VpnConfig → List Authority → Option Bytes
ca_cert_text joined c rs =
    if ltb (length (text c.ca_cert)) 100
    then elim (answered joined (joined_ca c.ca_fingerprint rs)) [
      | none ↦ none
      | some r ↦ some r.ca_cert
    ]
    else some (text c.ca_cert)

abbrev pub string_or : Bytes → Option Bytes → Bytes
string_or d none = d
string_or d (some s) = s

-- An empty `assigned_ip` counts as none.
abbrev pub non_empty : Option Bytes → Option Bytes
non_empty none = none
non_empty (some s) = if is_empty s then none else some s

unfoldable pub find_user : Bytes → List User → Option User
find_user name [] = none
find_user name (u ∷ us) = if eqb u.username name then some u else find_user name us

-- INSERT INTO vpn_users ... ON CONFLICT (username) DO UPDATE SET email = EXCLUDED.email
unfoldable pub put_user : User → List User → List User
put_user u [] = u ∷ []
put_user u (v ∷ us) =
    if eqb v.username u.username then record v { email = u.email } ∷ us else v ∷ put_user u us

-- RETURNING id
abbrev pub id_or : ℕ → Option User → ℕ
id_or n none = n
id_or n (some u) = u.id

unfoldable pub upsert_user : Bytes → Bytes → Bytes → Tables → Tables × ℕ
unfolding put_user find_user
upsert_user username email client_name db =
    let u : User = record {
      id = db.next_user;
      username = username;
      email = email;
      client_name = client_name;
      disabled = false;
    } in
    (
      record db { users = put_user u db.users; next_user = suc db.next_user },
      id_or db.next_user (find_user username db.users),
    )

unfoldable pub find_pair : ℕ → ℕ → List ClientProfile → Option ClientProfile
find_pair uid cid [] = none
find_pair uid cid (p ∷ ps) =
    if p.user_id == uid && p.config_id == cid then some p else find_pair uid cid ps

-- INSERT INTO vpn_client_profiles ... ON CONFLICT (user_id, config_id) DO UPDATE SET client_cert =
-- EXCLUDED.client_cert, client_key = EXCLUDED.client_key
unfoldable pub put_profile : ClientProfile → List ClientProfile → List ClientProfile
put_profile p [] = p ∷ []
put_profile p (q ∷ ps) =
    if q.user_id == p.user_id && q.config_id == p.config_id
    then record q { client_cert = p.client_cert; client_key = p.client_key } ∷ ps
    else q ∷ put_profile p ps

abbrev pub profile_id_or : ℕ → Option ClientProfile → ℕ
profile_id_or n none = n
profile_id_or n (some p) = p.id

unfoldable pub upsert_profile : ℕ → ℕ → Option Bytes → Bytes → Bytes → Tables → Tables × ℕ
unfolding put_profile find_pair
upsert_profile uid cid ip cert key db =
    let p : ClientProfile = record {
      id = db.next_profile;
      user_id = uid;
      config_id = cid;
      assigned_ip = ip;
      use_static_ip = elim ip [ none ↦ false | some s ↦ true ];
      client_cert = cert;
      client_key = key;
      revoked = false;
    } in
    (
      record db { profiles = put_profile p db.profiles; next_profile = suc db.next_profile },
      profile_id_or db.next_profile (find_pair uid cid db.profiles),
    )

module _ (o : Openssl) where
  open o use {pem, Cert, cert_to_pem, read_cert}

  -- The second statement. Where it is refused, what the first one wrote stays.
  unfoldable pub save_profile :
      Bool → VpnConfig → Bytes → Option Bytes → Bytes → Bytes → Tables × ℕ → Tables × Reply
  unfolding upsert_profile
  save_profile accepted c ca_cert ip cert key (db, uid) =
      let (after, pid) = upsert_profile uid c.id ip cert key db in
      if accepted
      then (after, ok_profile pid (client_config c (codes "pull\n") ca_cert cert key))
      else (db, error not_stored)

  unfoldable pub gen_client_cert : Answers o → Bytes → Params → Tables → Result (Tables × Reply)
  gen_client_cert a encryption_key params db = do
    username ← or_fail missing_parameters (string_of (params (codes "username")))
    config_id ← or_fail missing_parameters (number_of (params (codes "config_id")))
    let email = string_or [] (string_of (params (codes "email")))
    let client_name = string_or [] (string_of (params (codes "client_name")))
    let ip = non_empty (string_of (params (codes "assigned_ip")))
    let cn = string_or username (string_of (params (codes "cert_cn")))
    let days = number_or (pos 365) (params (codes "valid_days"))
    c ← or_fail no_config (answered a.selected (config_by config_id db.configs))
    ca_cert_pem ← or_fail no_ca_cert (ca_cert_text a.joined c db.authorities)
    require no_fingerprint (not (is_empty (text c.ca_fingerprint)))
    ca ←
        or_fail no_ca_key
          (answered a.key_selected (find_fingerprint (text c.ca_fingerprint) db.authorities))
    ca_cert ← or_fail not_parsed (read_cert ca_cert_pem)
    ca_key ← or_fail not_decrypted (decrypt_private_key pem encryption_key ca.ca_key none)
    client_key ← or_fail no_key (a.crypto.new_key 2048)
    client_cert ← or_fail not_signed (sign_certificate o a.crypto ca_key ca_cert client_key cn days)
    encrypted ← or_fail not_encrypted (encrypt_private_key pem encryption_key client_key none)
    require not_stored a.user_stored
    done (
        save_profile a.profile_stored c ca_cert_pem ip (cert_to_pem client_cert) encrypted
          (upsert_user username email client_name db))

  unfoldable pub handle_gen_client_cert : Answers o → Bytes → Params → Tables → Tables × Reply
  unfolding respond gen_client_cert
  handle_gen_client_cert a k params db = respond db (gen_client_cert a k params db)
