-- ===== src/Clients/Revocation.antt =====
-- What a revocation changes, and what it leaves.
use ovpn_manager.Prelude.{
  ℕ, ◌≡◌, refl, sym, ap, subst, Bool, true, false, List, [], ◌∷◌, ◌++◌, Option, none, some, ◌==◌,
  if◌then◌else◌, Bytes, codes, arith, Option-cases, inl, inr,
}
use ovpn_manager.Prelude.Int.{ℤ, pos, negsuc}
use ovpn_manager.Certs.{decrypt_private_key}
use ovpn_manager.Certs.X509.{Openssl}
use ovpn_manager.Schema.{VpnConfig, ClientProfile, Tables}
use ovpn_manager.Requests.{Params, string_of, number_of, ok, ◌>>=◌, or_fail, respond, answered}
use ovpn_manager.Requests.Chains.{
  Ensures, or_fail-Ensures, require-Ensures, done-Ensures, answered-some, respond-Ensures,
}
use ovpn_manager.Clients.{
  Accepted, find_client, set_revoked, send, Joined, client_by, revoke, joined_row, join,
  revoke_client_cert, get_client_config, handle_revoke_client_cert, handle_get_client_config,
  serial_in, serial_text, reason_text,
}

find_client-id :
    (id : ℕ) (ps : List ClientProfile) (p : ClientProfile) → find_client id ps ≡ some p → p.id ≡ id
unfolding find_client
find_client-id id [] p e = cc
find_client-id id (q ∷ ps) p e = ground (arith, find_client-id id ps p)

find-set_revoked :
    (id : ℕ) (ps : List ClientProfile) (p : ClientProfile)
    → find_client id ps ≡ some p
    → find_client id (set_revoked id ps) ≡ some (record p { revoked = true })
unfolding find_client set_revoked
find-set_revoked id [] p e = cc
find-set_revoked id (q ∷ ps) p e = ground (arith, find-set_revoked id ps p)

find-set_revoked_ne :
    (id j : ℕ) (ps : List ClientProfile)
    → (j == id) ≡ false
    → find_client j (set_revoked id ps) ≡ find_client j ps
unfolding find_client set_revoked
find-set_revoked_ne id j [] n = refl
find-set_revoked_ne id j (q ∷ ps) n = ground (arith, find-set_revoked_ne id j ps)

profile_after :
    (updated : Bool) (id : ℕ) (p : ClientProfile) (j : ℕ) (ps : List ClientProfile)
    → find_client id ps ≡ some p
    → find_client j (if updated then set_revoked id ps else ps) ≡ (
        if j == id
        then some (if updated then record p { revoked = true } else p)
        else find_client j ps)
profile_after true id p j ps e =
    ground (arith, find-set_revoked id ps p e, find-set_revoked_ne id j ps)
profile_after false id p j ps e = ground arith

-- A download reads the same row before and after.
joined_row-set_revoked :
    (id j : ℕ) (ps : List ClientProfile) (ss : List VpnConfig)
    → joined_row (find_client j (set_revoked id ps)) ss ≡ joined_row (find_client j ps) ss
unfolding find_client set_revoked
joined_row-set_revoked id j [] ss = refl
joined_row-set_revoked id j (q ∷ ps) ss = ground (arith, joined_row-set_revoked id j ps ss)

join-revoke :
    (updated : Bool) (serial reason : Bytes) (p : ClientProfile) (db : Tables) (cid : ℤ)
    → join cid (revoke updated serial reason p db) ≡ join cid db
unfolding join revoke
join-revoke true serial reason p db (pos j) = joined_row-set_revoked p.id j db.profiles db.configs
join-revoke true serial reason p db (negsuc j) = refl
join-revoke false serial reason p db cid = refl

module _ (o : Openssl) where
  open o use {pem, read_cert}

  join-revoke_client_cert :
      (a : Accepted) (params : Params) (db : Tables)
      → Ensures (λ r. (cid : ℤ) → join cid r.0 ≡ join cid db) (revoke_client_cert o a params db)
  unfolding revoke_client_cert
  join-revoke_client_cert a params db = or_fail-Ensures _ _ _ _ λ id given.
      or_fail-Ensures _ _ _ _ λ p found.
        require-Ensures _ _ _ _
          λ inserted. done-Ensures _ _ λ cid. join-revoke a.updated _ _ p db cid

  same_reply :
      (k : Bytes) (after db : Tables) (row : Option Joined)
      → (respond after (send o k after row)).1 ≡ (respond db (send o k db row)).1
  unfolding respond send ◌>>=◌ or_fail
  same_reply k after db none = refl
  same_reply k after db (some row) =
      elim (Option-cases (decrypt_private_key pem k row.client_key none)) [
        | inl locked ↦ rw locked refl
        | inr (key, opened) ↦ rw opened refl
      ]

  -- The reply to a download depends on the row that the join gives, and on nothing else.
  get_client_config-reply :
      (a : Accepted) (k : Bytes) (params : Params) (db after : Tables)
      → ((cid : ℤ) → join cid after ≡ join cid db)
      → (handle_get_client_config o a k params after).1
        ≡ (handle_get_client_config o a k params db).1
  unfolding handle_get_client_config get_client_config respond ◌>>=◌ or_fail
  get_client_config-reply a k params db after same =
      elim (Option-cases (number_of (params (codes "client_id")))) [
        | inl missing ↦ rw missing refl
        | inr (cid, given) ↦
            rw (given, same cid) (same_reply k after db (answered a.selected (join cid db)))
      ]

  -- A revocation does not change what a download of any client gives: a revoked client still gets
  -- its configuration, with its certificate and its key.
  pub handle_get_client_config-revoke :
      (a a' : Accepted) (k : Bytes) (params params' : Params) (db : Tables)
      → (handle_get_client_config o a k params (handle_revoke_client_cert o a' params' db).0).1
        ≡ (handle_get_client_config o a k params db).1
  unfolding handle_revoke_client_cert
  handle_get_client_config-revoke a a' k params params' db =
      get_client_config-reply a k params db (handle_revoke_client_cert o a' params' db).0 (
        respond-Ensures (λ r. (cid : ℤ) → join cid r.0 ≡ join cid db) db
          (revoke_client_cert o a' params' db) (λ m cid. refl)
          (join-revoke_client_cert a' params' db))

  -- The table of profiles after a revocation of `p` under `id`, and the new record.
  abbrev Left : Bool → Bytes → Bytes → ℕ → ClientProfile → ℕ → Tables → Tables → Type 0
  Left updated serial reason id p j db after =
      (after.revocations
        ≡ db.revocations ++ record { profile_id = id; serial = serial; reason = reason } ∷ [])
      × (find_client j after.profiles ≡ (
          if j == id
          then some (if updated then record p { revoked = true } else p)
          else find_client j db.profiles))

  revoke-Left :
      (updated : Bool) (serial reason : Bytes) (id : ℕ) (p : ClientProfile) (j : ℕ) (db : Tables)
      → find_client id db.profiles ≡ some p
      → Left updated serial reason id p j db (revoke updated serial reason p db)
  unfolding revoke
  revoke-Left updated serial reason id p j db found =
      let e : p.id ≡ id = find_client-id id db.profiles p found in
      (
        ap (λ i. db.revocations ++ record { profile_id = i; serial = serial; reason = reason } ∷ [])
            e,
        subst
            (λ i. find_client j (if updated then set_revoked i db.profiles else db.profiles) ≡ (
              if j == id
              then some (if updated then record p { revoked = true } else p)
              else find_client j db.profiles))
            (sym e) (profile_after updated id p j db.profiles found),
      )

  -- What a revocation that replies ok leaves behind, for the profile `p` of the request: one more
  -- revocation record, with the serial number of its certificate; `p` marked as revoked if the
  -- UPDATE was accepted, and as before if it was not; every other profile as it was.
  pub handle_revoke_client_cert_lem :
      (a : Accepted) (params : Params) (db : Tables) (id : ℕ) (p : ClientProfile) (j : ℕ)
      → number_of (params (codes "client_profile_id")) ≡ some (pos id)
      → find_client id db.profiles ≡ some p
      → (handle_revoke_client_cert o a params db).1 ≡ ok
      → let after = (handle_revoke_client_cert o a params db).0 in
        (after.revocations
          ≡ db.revocations
            ++ record {
              profile_id = id;
              serial = serial_text (serial_in o (read_cert p.client_cert));
              reason = reason_text (string_of (params (codes "reason")));
            }
              ∷ [])
        × (find_client j after.profiles ≡ (
            if j == id
            then some (if a.updated then record p { revoked = true } else p)
            else find_client j db.profiles))
  unfolding handle_revoke_client_cert revoke_client_cert
  handle_revoke_client_cert_lem a params db id p j given found =
      respond-Ensures
        (λ r.
          r.1 ≡ ok
          → Left a.updated (serial_text (serial_in o (read_cert p.client_cert)))
              (reason_text (string_of (params (codes "reason")))) id p j db r.0)
        db (revoke_client_cert o a params db) (λ m e. cc)
        (or_fail-Ensures _ _ _ _ λ id' given'. or_fail-Ensures _ _ _ _ λ p' found'.
          require-Ensures _ _ _ _ λ inserted. done-Ensures _ _ λ e.
            let id_is : id' ≡ pos id = cc in
            let row =
              subst (λ z. client_by z db.profiles ≡ some p') id_is
                (answered-some a.selected _ p' found') in
            let same : p ≡ p' = cc in
            let reason = reason_text (string_of (params (codes "reason"))) in
            subst
              (λ q.
                Left a.updated (serial_text (serial_in o (read_cert p.client_cert))) reason id p j
                  db
                  (revoke a.updated (serial_text (serial_in o (read_cert q.client_cert))) reason q
                    db))
              same
              (revoke-Left a.updated (serial_text (serial_in o (read_cert p.client_cert))) reason id
                p j db found))
