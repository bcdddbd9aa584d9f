-- ===== src/Server/Frames.antt =====
-- What the handlers of one group leave of the tables of the other.
use ovpn_manager.Prelude.{ℕ, ◌≡◌, refl, List, [], ◌∷◌, Bytes, arith}
use ovpn_manager.Prelude.Int.{ℤ, pos, negsuc}
use ovpn_manager.Certs.X509.{Openssl}
use ovpn_manager.Schema.{Authority, VpnConfig, Tables}
use ovpn_manager.Requests.{Reply, ok}
use ovpn_manager.Requests.Chains.{or_fail-Ensures, require-Ensures, done-Ensures, respond-Ensures}
use ovpn_manager.Authorities.{
  Request, generate, sign, delete, handle, generate_ca_cert, sign_server_cert, delete_ca_cert,
}
use ovpn_manager.Authorities.Rows.{upsert, update_config}
use ovpn_manager.Authorities.Anchors.{is_anchored}
use ovpn_manager.Authorities.Soundness.{IsSound}
use ovpn_manager.Clients.Keys.{IsKeyed, IsStep}
use ovpn_manager.Server.State.{set_status}

-- A new status leaves every CA where it is referred to.
is_anchored-set_status :
    (rs : List Authority) (id : ℕ) (s : Bytes) (cs : List VpnConfig)
    → is_anchored rs (set_status id s cs) ≡ is_anchored rs cs
unfolding is_anchored set_status
is_anchored-set_status rs id s [] = refl
is_anchored-set_status rs id s (c ∷ cs) = ground (arith, is_anchored-set_status rs id s cs)

abbrev SameClients : Tables → Tables × Reply → Type 0
SameClients db r = (r.0.users ≡ db.users) × (r.0.profiles ≡ db.profiles)

module _ (o : Openssl) where
  pub set_status-IsSound :
      (id : ℕ) (s : Bytes) (db : Tables)
      → IsSound o db
      → IsSound o (record db { configs = set_status id s db.configs })
  set_status-IsSound id s db h = record {
    anchored = rw (is_anchored-set_status db.authorities id s db.configs) h.anchored;
    certified = h.certified;
    keyed = h.keyed;
    below = h.below;
  }

  pub step-IsSound : (db after : Tables) → IsStep db after → IsSound o db → IsSound o after
  step-IsSound db after s h = record {
    anchored = rw (s.same_authorities, s.same_configs) h.anchored;
    certified = rw s.same_authorities h.certified;
    keyed = rw s.same_authorities h.keyed;
    below = rw (s.same_authorities, s.same_next) h.below;
  }

  update_config-same :
      (id : ℤ) (cert key ca_cert fp : Bytes) (db : Tables) (r : Reply)
      → SameClients db (update_config id cert key ca_cert fp db, r)
  unfolding update_config
  update_config-same (pos id) cert key ca_cert fp db r = (refl, refl)
  update_config-same (negsuc id) cert key ca_cert fp db r = (refl, refl)

  handle-same : (k : Bytes) (r : Request o) (db : Tables) → SameClients db (handle o k r db)
  unfolding handle generate_ca_cert sign_server_cert delete_ca_cert upsert
  handle-same k (generate a params) db =
      respond-Ensures (SameClients db) db (generate_ca_cert o a k params db) (λ m. (refl, refl))
        (or_fail-Ensures _ _ _ _ λ cn given. or_fail-Ensures _ _ _ _ λ key made.
          require-Ensures _ _ _ _ λ made'. or_fail-Ensures _ _ _ _ λ cert signed.
            require-Ensures _ _ _ _ λ digested.
              or_fail-Ensures _ _ _ _
                λ t closed. require-Ensures _ _ _ _ λ written. done-Ensures _ _ (refl, refl))
  handle-same k (sign a params) db =
      respond-Ensures (SameClients db) db (sign_server_cert o a k params db) (λ m. (refl, refl))
        (or_fail-Ensures _ _ _ _ λ cfg given. or_fail-Ensures _ _ _ _ λ cn given'.
          or_fail-Ensures _ _ _ _ λ row found. or_fail-Ensures _ _ _ _ λ ca_cert parsed.
            or_fail-Ensures _ _ _ _ λ ca_key opened. or_fail-Ensures _ _ _ _ λ key made.
              or_fail-Ensures _ _ _ _ λ cert signed. or_fail-Ensures _ _ _ _ λ closed encrypted.
                require-Ensures _ _ _ _
                  λ written. done-Ensures _ _ (update_config-same cfg _ _ _ _ db ok))
  handle-same k (delete a params) db =
      respond-Ensures (SameClients db) db (delete_ca_cert o a k params db) (λ m. (refl, refl))
        (or_fail-Ensures _ _ _ _ λ id given. or_fail-Ensures _ _ _ _ λ row found.
          require-Ensures _ _ _ _ λ named. require-Ensures _ _ _ _ λ unused.
            or_fail-Ensures _ _ _ _
              λ key opened. require-Ensures _ _ _ _ λ written. done-Ensures _ _ (refl, refl))

  -- The handlers for CA certificates keep the keys of the users and the profiles.
  pub handle-IsKeyed :
      (k : Bytes) (r : Request o) (db : Tables) → IsKeyed db → IsKeyed (handle o k r db).0
  handle-IsKeyed k r db h =
      let same = handle-same k r db in
      record { names = rw same.0 h.names; pairs = rw same.1 h.pairs }
