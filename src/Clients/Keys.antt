-- ===== src/Clients/Keys.antt =====
-- The unique keys of vpn_users and vpn_client_profiles under the handlers of
-- master/client_handler.c, and what these leave alone.
use ovpn_manager.Prelude.{
  ℕ, ◌≡◌, refl, Bool, true, false, not, ◌&&◌, ◌||◌, List, [], ◌∷◌, Option, ◌==◌, Bytes, eqb,
  eqb_iff, arith,
}
use ovpn_manager.Certs.X509.{Openssl}
use ovpn_manager.Schema.{VpnConfig, User, ClientProfile, Tables}
use ovpn_manager.Requests.{Params}
use ovpn_manager.Requests.Chains.{or_fail-Ensures, require-Ensures, done-Ensures, respond-Ensures}
use ovpn_manager.Clients.{
  Accepted, set_revoked, revoke, revoke_client_cert, send, get_client_config,
  handle_revoke_client_cert, handle_get_client_config,
}
use ovpn_manager.Clients.Issue.{
  Answers, put_user, upsert_user, put_profile, upsert_profile, save_profile, gen_client_cert,
  handle_gen_client_cert,
}

unfoldable pub has_name : Bytes → List User → Bool
has_name name [] = false
has_name name (u ∷ us) = eqb u.username name || has_name name us

unfoldable pub names_differ : List User → Bool
unfolding has_name
names_differ [] = true
names_differ (u ∷ us) = not (has_name u.username us) && names_differ us

unfoldable pub has_pair : ℕ → ℕ → List ClientProfile → Bool
has_pair uid cid [] = false
has_pair uid cid (p ∷ ps) = (p.user_id == uid && p.config_id == cid) || has_pair uid cid ps

unfoldable pub pairs_differ : List ClientProfile → Bool
unfolding has_pair
pairs_differ [] = true
pairs_differ (p ∷ ps) = not (has_pair p.user_id p.config_id ps) && pairs_differ ps

has_name-put :
    (n : Bytes) (u : User) (us : List User)
    → has_name n (put_user u us) ≡ (eqb u.username n || has_name n us)
unfolding has_name put_user
has_name-put n u [] = refl
has_name-put n u (v ∷ us) = ground (
  arith,
  has_name-put n u us,
  eqb_iff v.username u.username,
  eqb_iff u.username n,
  eqb_iff v.username n,
)

names_differ-put :
    (u : User) (us : List User) → names_differ us ≡ true → names_differ (put_user u us) ≡ true
unfolding names_differ put_user
names_differ-put u [] h = refl
names_differ-put u (v ∷ us) h = ground (
  arith,
  names_differ-put u us,
  has_name-put v.username u us,
  eqb_iff v.username u.username,
  eqb_iff u.username v.username,
)

has_pair-put :
    (i j : ℕ) (p : ClientProfile) (ps : List ClientProfile)
    → has_pair i j (put_profile p ps) ≡ ((p.user_id == i && p.config_id == j) || has_pair i j ps)
unfolding has_pair put_profile
has_pair-put i j p [] = refl
has_pair-put i j p (q ∷ ps) = ground (arith, has_pair-put i j p ps)

pairs_differ-put :
    (p : ClientProfile) (ps : List ClientProfile)
    → pairs_differ ps ≡ true
    → pairs_differ (put_profile p ps) ≡ true
unfolding pairs_differ put_profile
pairs_differ-put p [] h = refl
pairs_differ-put p (q ∷ ps) h =
    ground (arith, pairs_differ-put p ps, has_pair-put q.user_id q.config_id p ps)

has_pair-set_revoked :
    (id i j : ℕ) (ps : List ClientProfile) → has_pair i j (set_revoked id ps) ≡ has_pair i j ps
unfolding has_pair set_revoked
has_pair-set_revoked id i j [] = refl
has_pair-set_revoked id i j (q ∷ ps) = ground (arith, has_pair-set_revoked id i j ps)

pairs_differ-set_revoked :
    (id : ℕ) (ps : List ClientProfile) → pairs_differ (set_revoked id ps) ≡ pairs_differ ps
unfolding pairs_differ set_revoked
pairs_differ-set_revoked id [] = refl
pairs_differ-set_revoked id (q ∷ ps) =
    ground (arith, pairs_differ-set_revoked id ps, has_pair-set_revoked id q.user_id q.config_id ps)

-- User names are unique, and so are the pairs of user and configuration.
pub record IsKeyed (db : Tables) : Type 0 where
  pub names : names_differ db.users ≡ true
  pub pairs : pairs_differ db.profiles ≡ true

-- From `db` to `after` the keys stay unique, and vpn_ca and vpn_config are left alone.
pub record IsStep (db after : Tables) : Type 0 where
  pub keyed : IsKeyed after
  pub same_authorities : after.authorities ≡ db.authorities
  pub same_configs : after.configs ≡ db.configs
  pub same_next : after.next_id ≡ db.next_id

here : (db : Tables) → IsKeyed db → IsStep db db
here db k = record { keyed = k; same_authorities = refl; same_configs = refl; same_next = refl }

module _ (o : Openssl) where
  save_profile-IsStep :
      (b : Bool) (c : VpnConfig) (ca : Bytes) (ip : Option Bytes)
      (cert key name email client_name : Bytes) (db : Tables)
      → IsKeyed db
      → IsStep db (save_profile o b c ca ip cert key (upsert_user name email client_name db)).0
  unfolding save_profile upsert_user upsert_profile
  save_profile-IsStep false c ca ip cert key name email client_name db h = record {
    keyed = record { names = names_differ-put _ db.users h.names; pairs = h.pairs };
    same_authorities = refl;
    same_configs = refl;
    same_next = refl;
  }
  save_profile-IsStep true c ca ip cert key name email client_name db h = record {
    keyed = record {
      names = names_differ-put _ db.users h.names;
      pairs = pairs_differ-put _ db.profiles h.pairs;
    };
    same_authorities = refl;
    same_configs = refl;
    same_next = refl;
  }

  pub gen_client_cert-IsStep :
      (a : Answers o) (k : Bytes) (params : Params) (db : Tables)
      → IsKeyed db
      → IsStep db (handle_gen_client_cert o a k params db).0
  unfolding handle_gen_client_cert gen_client_cert
  gen_client_cert-IsStep a k params db h =
      respond-Ensures (λ r. IsStep db r.0) db (gen_client_cert o a k params db) (λ m. here db h)
        (or_fail-Ensures _ _ _ _ λ username given. or_fail-Ensures _ _ _ _ λ z given'.
          or_fail-Ensures _ _ _ _ λ c found. or_fail-Ensures _ _ _ _ λ ca_text chosen.
            require-Ensures _ _ _ _ λ printed. or_fail-Ensures _ _ _ _ λ ca found'.
              or_fail-Ensures _ _ _ _ λ ca_cert parsed. or_fail-Ensures _ _ _ _ λ ca_key opened.
                or_fail-Ensures _ _ _ _ λ key made. or_fail-Ensures _ _ _ _ λ cert signed.
                  or_fail-Ensures _ _ _ _ λ closed encrypted. require-Ensures _ _ _ _ λ stored.
                    done-Ensures _ _
                      (save_profile-IsStep a.profile_stored c ca_text _ _ closed username _ _ db h))

  revoke-IsStep :
      (b : Bool) (serial reason : Bytes) (p : ClientProfile) (db : Tables)
      → IsKeyed db
      → IsStep db (revoke b serial reason p db)
  unfolding revoke
  revoke-IsStep b serial reason p db h = record {
    keyed = record {
      names = h.names;
      pairs = ground (arith, h.pairs, pairs_differ-set_revoked p.id db.profiles);
    };
    same_authorities = refl;
    same_configs = refl;
    same_next = refl;
  }

  pub revoke_client_cert-IsStep :
      (a : Accepted) (params : Params) (db : Tables)
      → IsKeyed db
      → IsStep db (handle_revoke_client_cert o a params db).0
  unfolding handle_revoke_client_cert revoke_client_cert
  revoke_client_cert-IsStep a params db h =
      respond-Ensures (λ r. IsStep db r.0) db (revoke_client_cert o a params db) (λ m. here db h)
        (or_fail-Ensures _ _ _ _ λ id given. or_fail-Ensures _ _ _ _ λ p found.
          require-Ensures _ _ _ _ λ inserted. done-Ensures _ _ (revoke-IsStep a.updated _ _ p db h))

  pub get_client_config-IsStep :
      (a : Accepted) (k : Bytes) (params : Params) (db : Tables)
      → IsKeyed db
      → IsStep db (handle_get_client_config o a k params db).0
  unfolding handle_get_client_config get_client_config send
  get_client_config-IsStep a k params db h =
      respond-Ensures (λ r. IsStep db r.0) db (get_client_config o a k params db) (λ m. here db h)
        (or_fail-Ensures _ _ _ _ λ cid given.
          or_fail-Ensures _ _ _ _
            λ row found. or_fail-Ensures _ _ _ _ λ key opened. done-Ensures _ _ (here db h))
