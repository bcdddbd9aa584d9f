-- ===== src/Clients/Upserts.antt =====
-- The rows of vpn_users and vpn_client_profiles behind the two upserts.
use ovpn_manager.Prelude.{
  ℕ, ◌≡◌, refl, Bool, false, ◌&&◌, List, [], ◌∷◌, Option, none, some, ◌==◌, Bytes, eqb, eqb_refl,
  arith, Bool-cases, inl, inr,
}
use ovpn_manager.Schema.{User, ClientProfile}
use ovpn_manager.Requests.{ok_profile}
use ovpn_manager.Clients.Issue.{find_user, put_user, id_or, find_pair, put_profile, profile_id_or}

-- The row under a name after the upsert, and its id as RETURNING gives it.
abbrev pub merged_user : User → Option User → User
merged_user u none = u
merged_user u (some v) = record v { email = u.email }

pub find_user-put :
    (u : User) (us : List User)
    → find_user u.username (put_user u us) ≡ some (merged_user u (find_user u.username us))
unfolding find_user put_user
find_user-put u [] = ground (arith, eqb_refl u.username)
find_user-put u (v ∷ us) = elim (Bool-cases (eqb v.username u.username)) [
  | inl same ↦ rw (same, find_user, same) refl
  | inr other ↦ rw (other, find_user, other) (find_user-put u us)
]

abbrev pub merged_profile : ClientProfile → Option ClientProfile → ClientProfile
merged_profile p none = p
merged_profile p (some q) = record q { client_cert = p.client_cert; client_key = p.client_key }

pub find_pair-put :
    (p : ClientProfile) (ps : List ClientProfile)
    → find_pair p.user_id p.config_id (put_profile p ps)
      ≡ some (merged_profile p (find_pair p.user_id p.config_id ps))
unfolding find_pair put_profile
find_pair-put p [] = ground arith
find_pair-put p (q ∷ ps) =
    elim (Bool-cases (q.user_id == p.user_id && q.config_id == p.config_id)) [
      | inl same ↦ rw (same, find_pair, same) refl
      | inr other ↦ rw (other, find_pair, other) (find_pair-put p ps)
    ]

-- The mark of a profile that is there; a new profile has none.
abbrev pub marked : Option ClientProfile → Bool
marked none = false
marked (some p) = p.revoked

pub mark-merged_profile :
    (p : ClientProfile) (o : Option ClientProfile)
    → p.revoked ≡ false
    → (merged_profile p o).revoked ≡ marked o
mark-merged_profile p none e = e
mark-merged_profile p (some q) e = refl

pub cert-merged_profile :
    (p : ClientProfile) (o : Option ClientProfile)
    → (merged_profile p o).client_cert ≡ p.client_cert
cert-merged_profile p none = refl
cert-merged_profile p (some q) = refl

pub key-merged_profile :
    (p : ClientProfile) (o : Option ClientProfile) → (merged_profile p o).client_key ≡ p.client_key
key-merged_profile p none = refl
key-merged_profile p (some q) = refl

pub ok_profile-injective :
    {i j : ℕ} {a b : Bytes} → ok_profile i a ≡ ok_profile j b → (i ≡ j) × (a ≡ b)
ok_profile-injective e = (cc, cc)

pub id-merged_user : (u : User) (o : Option User) → id_or u.id o ≡ (merged_user u o).id
id-merged_user u none = refl
id-merged_user u (some v) = refl

pub id-merged_profile :
    (p : ClientProfile) (o : Option ClientProfile) → profile_id_or p.id o ≡ (merged_profile p o).id
id-merged_profile p none = refl
id-merged_profile p (some q) = refl
