-- ===== src/Authorities/Signing.antt =====
-- What `handle_sign_server_cert` leaves in the configuration's row, and `handle_delete_ca_cert`
-- where the query for references fails.
use ovpn_manager.Prelude.{
  ℕ, ◌≡◌, refl, ap, true, false, List, [], ◌∷◌, none, some, Bytes, codes, is_empty, arith,
}
use ovpn_manager.Prelude.Int.{ℤ, pos, negsuc}
use ovpn_manager.Certs.{decrypt_private_key, encrypt_private_key}
use ovpn_manager.Schema.{Authority, VpnConfig, Tables, text}
use ovpn_manager.Certs.X509.{Openssl, sign_certificate, leaf_template}
use ovpn_manager.Requests.{respond}
use ovpn_manager.Authorities.{
  Answers, sign_server_cert, handle_sign_server_cert, handle_delete_ca_cert, delete_ca_cert,
  fingerprint,
}
use ovpn_manager.Requests.{
  Params, string_of, number_of, number_or, Reply, ok, ◌>>=◌, ◌>>◌, or_fail, require,
}
use ovpn_manager.Authorities.Rows.{
  find_config, chosen, find_by, delete_by, delete_authority, find_authority, is_referenced,
  write_config, update_config,
}

write_absent :
    (id : ℕ) (cert key ca_cert fp : Bytes) (cs : List VpnConfig)
    → find_config id cs ≡ none
    → write_config id cert key ca_cert fp cs ≡ cs
unfolding find_config write_config
write_absent id cert key ca_cert fp [] e = refl
write_absent id cert key ca_cert fp (d ∷ cs) e =
    ground (arith, write_absent id cert key ca_cert fp cs)

update_absent :
    (id : ℕ) (cert key ca_cert fp : Bytes) (db : Tables)
    → find_config id db.configs ≡ none
    → update_config (pos id) cert key ca_cert fp db ≡ db
unfolding update_config
update_absent id cert key ca_cert fp db absent =
    ap (λ cs. record db { configs = cs }) (write_absent id cert key ca_cert fp db.configs absent)

find-delete : (id : ℕ) (rs : List Authority) → find_authority id (delete_authority id rs) ≡ none
unfolding find_authority delete_authority
find-delete id [] = refl
find-delete id (r ∷ rs) = ground (arith, find-delete id rs)

delete_by_gone : (id : ℤ) (rs : List Authority) → find_by id (delete_by id rs) ≡ none
delete_by_gone (pos id) rs = find-delete id rs
delete_by_gone (negsuc id) rs = refl

module _ (o : Openssl) where
  open o use {pem, Cert, cert_to_pem, read_cert}
  open pem use {Key}

  -- The row `c` holds a certificate that the CA of the row `ca` issued for `cn`, signed with the
  -- CA's own key, and the certified key, which the system key decrypts.
  pub record IsIssued (a : Answers o) (k cn : Bytes) (days : ℤ) (ca : Authority) (c : VpnConfig)
      : Type 0 where
    pub ca_cert : Cert
    pub ca_key : Key
    pub key : Key
    pub cert : Cert
    pub key_text : Bytes
    pub parsed : read_cert ca.ca_cert ≡ some ca_cert
    pub opened : decrypt_private_key pem k ca.ca_key none ≡ some ca_key
    pub signed : a.sign (leaf_template o a.crypto ca_cert key cn days) ca_key ≡ some cert
    pub kept_cert : c.server_cert ≡ some (cert_to_pem cert)
    pub kept_key : c.server_key ≡ some key_text
    pub decrypts : decrypt_private_key pem k key_text none ≡ some key
    pub kept_ca : c.ca_cert ≡ some ca.ca_cert
    pub kept_fingerprint : c.ca_fingerprint ≡ some (fingerprint o a ca_cert)

  -- What a reply `ok` to a request for the configuration `id` promises.
  abbrev Issues : Answers o → Bytes → Params → Tables → ℕ → Bytes → Tables × Reply → Type 0
  Issues a k params db id cn (after, reply) =
      (c : VpnConfig)
      → reply ≡ ok
      → find_config id after.configs ≡ some c
      → (ca : Authority) × (chosen (number_of (params (codes "ca_id"))) db.authorities ≡ some ca)
        × IsIssued a k cn (number_or (pos 365) (params (codes "valid_days"))) ca c

  -- `handle_sign_server_cert` replies ok for a configuration that does not exist, when every step
  -- before the UPDATE succeeds and the database accepts it: nothing is stored, and the key is lost.
  pub handle_sign_server_cert_absent :
      (a : Answers o) (k : Bytes) (params : Params) (db : Tables) (id : ℕ) (cn closed : Bytes)
      (ca : Authority) (ca_cert cert : Cert) (ca_key key : Key)
      → number_of (params (codes "config_id")) ≡ some (pos id)
      → find_config id db.configs ≡ none
      → string_of (params (codes "common_name")) ≡ some cn
      → a.selected ≡ true
      → chosen (number_of (params (codes "ca_id"))) db.authorities ≡ some ca
      → read_cert ca.ca_cert ≡ some ca_cert
      → decrypt_private_key pem k ca.ca_key none ≡ some ca_key
      → a.new_key 4096 ≡ some key
      → sign_certificate o a.crypto ca_key ca_cert key cn
          (number_or (pos 365) (params (codes "valid_days")))
        ≡ some cert
      → encrypt_private_key pem k key none ≡ some closed
      → a.written ≡ true
      → handle_sign_server_cert o a k params db ≡ (db, ok)
  unfolding handle_sign_server_cert sign_server_cert ◌>>=◌ ◌>>◌ or_fail require respond
      update_config
  handle_sign_server_cert_absent a k params db id cn closed ca ca_cert cert ca_key key e1 absent e2
        e3 e4 e5 e6 e7 e8 e9 e10 =
      simp (e1, e2, e3, e4, e5, e6, e7, e8, e9, e10)
        (ap (λ after. (after, ok)) (update_absent id _ closed ca.ca_cert _ db absent))

  -- `handle_delete_ca_cert` deletes a CA that a configuration refers to and replies ok, when the
  -- query for references fails and the deletion is accepted.
  pub handle_delete_ca_cert_unanswered :
      (a : Answers o) (k : Bytes) (params : Params) (db : Tables) (id : ℤ) (row : Authority)
      (key : Key)
      → number_of (params (codes "ca_id")) ≡ some id
      → a.selected ≡ true
      → find_by id db.authorities ≡ some row
      → is_empty (text row.ca_fingerprint) ≡ false
      → is_referenced (text row.ca_fingerprint) db.configs ≡ true
      → a.referenced ≡ false
      → decrypt_private_key pem k row.ca_key none ≡ some key
      → a.written ≡ true
      → let after = handle_delete_ca_cert o a k params db in
        (after.1 ≡ ok)
        × (find_by id after.0.authorities ≡ none)
        × (is_referenced (text row.ca_fingerprint) after.0.configs ≡ true)
  unfolding handle_delete_ca_cert delete_ca_cert ◌>>=◌ ◌>>◌ or_fail require respond
  handle_delete_ca_cert_unanswered a k params db id row key e1 e2 e3 e4 e5 e6 e7 e8 =
      rw (e1, e2, e3, e4, e6, e7, e8) (refl, delete_by_gone id _, e5)
