-- ===== src/Authorities/Soundness.antt =====
-- The handlers for CA certificates keep the two tables consistent.
use ovpn_manager.Prelude.{
  ℕ, ◌≡◌, refl, ap, Bool, true, false, ◌||◌, Option, some, Bytes, is_empty, Bool-cases, inl, inr,
  All, arith,
}
use ovpn_manager.Prelude.Int.{ℤ, pos, negsuc}
use ovpn_manager.Certs.{fingerprint_to_hex}
use ovpn_manager.Schema.{Authority, Tables, text}
use ovpn_manager.Certs.X509.{Openssl}
use ovpn_manager.Authorities.{
  Answers, Request, generate, sign, delete, handle, generate_ca_cert, sign_server_cert,
  delete_ca_cert, fingerprint,
}
use ovpn_manager.Requests.{Params}
use ovpn_manager.Authorities.Rows.{upsert, update_config, chosen, find_by, delete_by, is_referenced}
use ovpn_manager.Authorities.Anchors.{
  is_vouched, is_anchored, is_keyed, ids_below, is_anchored-delete_by, is_anchored-put,
  is_anchored-write_config, is_keyed-put, ids_below-put, is_keyed-delete_by, ids_below-delete_by,
}
use ovpn_manager.Authorities.Chosen.{All-chosen, All-put, All-delete_by, IsListed, All-IsListed}
use ovpn_manager.Requests.Chains.{
  Ensures, or_fail-Ensures, done-Ensures, require-Ensures, answered-some, respond-Ensures,
}

module _ (o : Openssl) where
  open o use {Cert, cert_to_pem, read_cert, digest}

  -- The fingerprint of a row is that of the certificate in it.
  abbrev pub IsCertified : Authority → Type 0
  IsCertified r =
      (c : Cert)
      → read_cert r.ca_cert ≡ some c
      → r.ca_fingerprint ≡ some (fingerprint_to_hex (digest c))

  -- Each configuration's fingerprint is empty or that of a row of vpn_ca, each row has its own
  -- certificate's fingerprint, and the ids are different and below the next one.
  pub record IsSound (db : Tables) : Type 0 where
    pub anchored : is_anchored db.authorities db.configs ≡ true
    pub certified : All IsCertified db.authorities
    pub keyed : is_keyed db.authorities ≡ true
    pub below : ids_below db.next_id db.authorities ≡ true

  upsert-IsSound :
      (cert : Cert) (cn key : Bytes) (now : ℕ) (db : Tables)
      → IsSound db
      → IsSound (upsert (cert_to_pem cert) cn key (fingerprint_to_hex (digest cert)) now db)
  unfolding upsert
  upsert-IsSound cert cn key now db s = record {
    anchored = is_anchored-put _ db.authorities db.configs s.below s.anchored;
    certified =
        All-put IsCertified _ db.authorities
          (λ c e.
            let same : cert ≡ c = cc (o.read-cert_to_pem cert) in
            ap (λ c'. some (fingerprint_to_hex (digest c'))) same)
          s.certified;
    keyed = is_keyed-put _ db.authorities s.below s.keyed;
    below = ids_below-put _ db.authorities s.below;
  }

  update_config-IsSound :
      (id : ℤ) (cert key ca_cert fp : Bytes) (db : Tables)
      → (is_empty fp || is_vouched fp db.authorities) ≡ true
      → IsSound db
      → IsSound (update_config id cert key ca_cert fp db)
  unfolding update_config
  update_config-IsSound (negsuc id) cert key ca_cert fp db v s = s
  update_config-IsSound (pos id) cert key ca_cert fp db v s = record {
    anchored =
        is_anchored-write_config id cert key ca_cert fp db.authorities db.configs v s.anchored;
    certified = s.certified;
    keyed = s.keyed;
    below = s.below;
  }

  delete_by-IsSound :
      (id : ℤ) (row : Authority) (db : Tables)
      → find_by id db.authorities ≡ some row
      → is_empty (text row.ca_fingerprint) ≡ false
      → is_referenced (text row.ca_fingerprint) db.configs ≡ false
      → IsSound db
      → IsSound (record db { authorities = delete_by id db.authorities })
  delete_by-IsSound id row db found named unused s = record {
    anchored = is_anchored-delete_by id _ row _ found s.keyed named unused s.anchored;
    certified = All-delete_by IsCertified id _ s.certified;
    keyed = is_keyed-delete_by id _ s.keyed;
    below = ids_below-delete_by id _ _ s.below;
  }

  is_vouched-fingerprint :
      (a : Answers o) (row : Authority) (ca_cert : Cert) (id : Option ℤ) (db : Tables)
      → IsSound db
      → chosen id db.authorities ≡ some row
      → read_cert row.ca_cert ≡ some ca_cert
      → (is_empty (fingerprint o a ca_cert) || is_vouched (fingerprint o a ca_cert) db.authorities)
        ≡ true
  is_vouched-fingerprint a row ca_cert id db s found parsed =
      let certified = All-chosen IsCertified id _ row s.certified found ca_cert parsed in
      let vouched =
        All-chosen (IsListed db.authorities) id _ row (All-IsListed _) found _ certified in
      elim (Bool-cases a.digested) [
        | inl taken ↦ rw taken (ground arith)
        | inr failed ↦ rw failed refl
      ]

  delete-Ensures :
      (a : Answers o) (k : Bytes) (params : Params) (db : Tables)
      → a.referenced ≡ true
      → IsSound db
      → Ensures (λ r. IsSound r.0) (delete_ca_cert o a k params db)
  unfolding delete_ca_cert
  delete-Ensures a k params db answered s = or_fail-Ensures _ _ _ _ λ id given.
      or_fail-Ensures _ _ _ _ λ row found. require-Ensures _ _ _ _ λ named.
        require-Ensures _ _ _ _ λ unused. or_fail-Ensures _ _ _ _ λ key opened.
          require-Ensures _ _ _ _ λ written. done-Ensures _ _ (
            delete_by-IsSound id row db (answered-some a.selected _ row found) (ground arith)
              (ground arith) s)

  generate-Ensures :
      (a : Answers o) (k : Bytes) (params : Params) (db : Tables)
      → IsSound db
      → Ensures (λ r. IsSound r.0) (generate_ca_cert o a k params db)
  unfolding generate_ca_cert
  generate-Ensures a k params db s = or_fail-Ensures _ _ _ _ λ cn given.
      or_fail-Ensures _ _ _ _ λ key made. require-Ensures _ _ _ _ λ made'.
        or_fail-Ensures _ _ _ _ λ cert signed. require-Ensures _ _ _ _ λ digested.
          or_fail-Ensures _ _ _ _ λ text closed.
            require-Ensures _ _ _ _
              λ written. done-Ensures _ _ (upsert-IsSound cert cn text a.now db s)

  sign-Ensures :
      (a : Answers o) (k : Bytes) (params : Params) (db : Tables)
      → IsSound db
      → Ensures (λ r. IsSound r.0) (sign_server_cert o a k params db)
  unfolding sign_server_cert
  sign-Ensures a k params db s = or_fail-Ensures _ _ _ _ λ cfg given.
      or_fail-Ensures _ _ _ _ λ cn given'. or_fail-Ensures _ _ _ _ λ row found.
        or_fail-Ensures _ _ _ _ λ ca_cert parsed. or_fail-Ensures _ _ _ _ λ ca_key opened.
          or_fail-Ensures _ _ _ _ λ key made. or_fail-Ensures _ _ _ _ λ cert signed.
            or_fail-Ensures _ _ _ _ λ closed encrypted. require-Ensures _ _ _ _ λ written.
              done-Ensures _ _ (
                update_config-IsSound cfg _ _ _ _ db
                  (is_vouched-fingerprint a row ca_cert _ db s
                    (answered-some a.selected _ row found) parsed)
                  s)

  -- The query for configurations that refer to the CA, which only a deletion makes.
  unfoldable pub is_checked : Request o → Bool
  is_checked (generate a params) = true
  is_checked (sign a params) = true
  is_checked (delete a params) = a.referenced

  -- No request to the three handlers breaks the tables' consistency, whatever fails in it, if the
  -- database answers the query for references of a deletion.
  pub handle-IsSound :
      (encryption_key : Bytes) (r : Request o) (db : Tables)
      → is_checked r ≡ true
      → IsSound db
      → IsSound (handle o encryption_key r db).0
  unfolding handle is_checked
  handle-IsSound k (generate a params) db c s =
      respond-Ensures _ db _ (λ m. s) (generate-Ensures a k params db s)
  handle-IsSound k (sign a params) db c s =
      respond-Ensures _ db _ (λ m. s) (sign-Ensures a k params db s)
  handle-IsSound k (delete a params) db c s =
      respond-Ensures _ db _ (λ m. s) (delete-Ensures a k params db c s)
