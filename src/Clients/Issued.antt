-- ===== src/Clients/Issued.antt =====
-- What an issue that replies ok leaves in the tables, and what it sends.
use ovpn_manager.Prelude.{ℕ, ◌≡◌, none, some, Bytes, codes}
use ovpn_manager.Prelude.Int.{ℤ}
use ovpn_manager.Certs.{decrypt_private_key}
use ovpn_manager.Certs.X509.{Openssl, leaf_template}
use ovpn_manager.Schema.{Authority, VpnConfig, User, ClientProfile, Tables, text}
use ovpn_manager.Authorities.Rows.{find_config}
use ovpn_manager.Clients.{client_config}
use ovpn_manager.Clients.Issue.{Answers, find_fingerprint, ca_cert_text, find_user, find_pair}
use ovpn_manager.Clients.Upserts.{marked}

module _ (o : Openssl) where
  open o use {pem, Cert, cert_to_pem, read_cert}
  open pem use {Key}

  -- The profile of the user and the configuration holds a new certificate for `cn`, signed by the
  -- key of the row of vpn_ca that has the configuration's fingerprint, and the certified key, which
  -- the system key opens. Its mark of revocation is that of the profile that was there, if any. The
  -- text that is sent holds the key as it is stored.
  pub record IsIssuedTo (a : Answers o) (k name cn : Bytes) (days : ℤ) (id pid : ℕ) (sent : Bytes)
      (db after : Tables) : Type 0 where
    pub config : VpnConfig
    pub user : User
    pub profile : ClientProfile
    pub ca : Authority
    pub ca_text : Bytes
    pub ca_cert : Cert
    pub ca_key : Key
    pub key : Key
    pub cert : Cert
    pub configured : find_config id db.configs ≡ some config
    pub known : find_user name after.users ≡ some user
    pub kept : find_pair user.id config.id after.profiles ≡ some profile
    pub replied_id : profile.id ≡ pid
    pub ca_row : find_fingerprint (text config.ca_fingerprint) db.authorities ≡ some ca
    pub ca_chosen : ca_cert_text a.joined config db.authorities ≡ some ca_text
    pub parsed : read_cert ca_text ≡ some ca_cert
    pub opened : decrypt_private_key pem k ca.ca_key none ≡ some ca_key
    pub signed : a.crypto.sign (leaf_template o a.crypto ca_cert key cn days) ca_key ≡ some cert
    pub kept_cert : profile.client_cert ≡ cert_to_pem cert
    pub decrypts : decrypt_private_key pem k profile.client_key none ≡ some key
    pub same_mark : profile.revoked ≡ marked (find_pair user.id config.id db.profiles)
    pub text_sent :
        sent ≡ client_config config (codes "pull\n") ca_text profile.client_cert profile.client_key

  -- What both statements leave behind, when the second one is accepted.
  record IsSaved (name cert key : Bytes) (c : VpnConfig) (ca : Bytes) (pid : ℕ) (sent : Bytes)
      (db after : Tables) : Type 0 where
    user : User
    profile : ClientProfile
    known : find_user name after.users ≡ some user
    kept : find_pair user.id c.id after.profiles ≡ some profile
    replied_id : profile.id ≡ pid
    kept_cert : profile.client_cert ≡ cert
    kept_key : profile.client_key ≡ key
    same_mark : profile.revoked ≡ marked (find_pair user.id c.id db.profiles)
    text_sent : sent ≡ client_config c (codes "pull\n") ca profile.client_cert profile.client_key
