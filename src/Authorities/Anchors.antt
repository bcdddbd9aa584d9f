-- ===== src/Authorities/Anchors.antt =====
-- That each configuration's CA fingerprint is that of a row of vpn_ca, under the SQL statements.
use ovpn_manager.Prelude.{
  ℕ, suc, ◌≡◌, refl, Bool, true, false, not, ◌&&◌, ◌||◌, List, [], ◌∷◌, some, ◌==◌, ltb, Bytes, eqb,
  is_empty, arith,
}
use ovpn_manager.Prelude.Int.{ℤ, pos, negsuc}
use ovpn_manager.Schema.{Authority, VpnConfig, text}
use ovpn_manager.Authorities.Rows.{
  equals, find_authority, find_by, delete_authority, delete_by, is_referenced, put, write_config,
}

-- Some row of vpn_ca has the fingerprint.
unfoldable pub is_vouched : Bytes → List Authority → Bool
is_vouched fp [] = false
is_vouched fp (r ∷ rs) = equals r.ca_fingerprint fp || is_vouched fp rs

-- Every configuration's fingerprint is empty or that of some row.
unfoldable pub is_anchored : List Authority → List VpnConfig → Bool
is_anchored rs [] = true
is_anchored rs (c ∷ cs) =
    (is_empty (text c.ca_fingerprint) || is_vouched (text c.ca_fingerprint) rs) && is_anchored rs cs

-- The ids are different, and below the next one.
unfoldable pub has_id : ℕ → List Authority → Bool
has_id id [] = false
has_id id (r ∷ rs) = r.id == id || has_id id rs

unfoldable pub is_keyed : List Authority → Bool
unfolding has_id
is_keyed [] = true
is_keyed (r ∷ rs) = not (has_id r.id rs) && is_keyed rs

unfoldable pub ids_below : ℕ → List Authority → Bool
ids_below n [] = true
ids_below n (r ∷ rs) = ltb r.id n && ids_below n rs

eqb_comm : (a b : Bytes) → eqb a b ≡ eqb b a
unfolding eqb
eqb_comm (x ∷ a) (y ∷ b) = ground (arith, eqb_comm a b)
eqb_comm [] [] = refl
eqb_comm [] (y ∷ b) = refl
eqb_comm (x ∷ a) [] = refl

delete_absent : (id : ℕ) (rs : List Authority) → has_id id rs ≡ false → delete_authority id rs ≡ rs
unfolding has_id delete_authority
delete_absent id [] h = refl
delete_absent id (r ∷ rs) h = ground (arith, delete_absent id rs)

is_vouched-delete :
    (id : ℕ) (fp : Bytes) (rs : List Authority) (row : Authority)
    → find_authority id rs ≡ some row
    → equals row.ca_fingerprint fp ≡ false
    → is_keyed rs ≡ true
    → is_vouched fp rs ≡ true
    → is_vouched fp (delete_authority id rs) ≡ true
unfolding find_authority is_keyed is_vouched delete_authority
is_vouched-delete id fp [] row found e k v = cc
is_vouched-delete id fp (r ∷ rs) row found e k v =
    ground (arith, is_vouched-delete id fp rs row, delete_absent id rs)

-- Deleting a row whose fingerprint no configuration has leaves each configuration anchored.
is_anchored-delete_authority :
    (id : ℕ) (rs : List Authority) (row : Authority) (cs : List VpnConfig)
    → find_authority id rs ≡ some row
    → is_keyed rs ≡ true
    → is_empty (text row.ca_fingerprint) ≡ false
    → is_referenced (text row.ca_fingerprint) cs ≡ false
    → is_anchored rs cs ≡ true
    → is_anchored (delete_authority id rs) cs ≡ true
unfolding is_anchored is_referenced
is_anchored-delete_authority id rs row [] found k n u a = refl
is_anchored-delete_authority id rs row (c ∷ cs) found k n u a = ground (
  arith,
  is_anchored-delete_authority id rs row cs found k n,
  is_vouched-delete id (text c.ca_fingerprint) rs row found,
  eqb_comm (text c.ca_fingerprint) (text row.ca_fingerprint),
)

pub is_anchored-delete_by :
    (id : ℤ) (rs : List Authority) (row : Authority) (cs : List VpnConfig)
    → find_by id rs ≡ some row
    → is_keyed rs ≡ true
    → is_empty (text row.ca_fingerprint) ≡ false
    → is_referenced (text row.ca_fingerprint) cs ≡ false
    → is_anchored rs cs ≡ true
    → is_anchored (delete_by id rs) cs ≡ true
is_anchored-delete_by (pos id) rs row cs found k n u a =
    is_anchored-delete_authority id rs row cs found k n u a
is_anchored-delete_by (negsuc id) rs row cs found k n u a = a

is_vouched-put :
    (fp : Bytes) (r : Authority) (rs : List Authority)
    → ids_below r.id rs ≡ true
    → is_vouched fp rs ≡ true
    → is_vouched fp (put r rs) ≡ true
unfolding is_vouched put ids_below
is_vouched-put fp r [] b v = cc
is_vouched-put fp r (s ∷ rs) b v = ground (arith, is_vouched-put fp r rs)

pub is_anchored-put :
    (r : Authority) (rs : List Authority) (cs : List VpnConfig)
    → ids_below r.id rs ≡ true
    → is_anchored rs cs ≡ true
    → is_anchored (put r rs) cs ≡ true
unfolding is_anchored
is_anchored-put r rs [] b a = refl
is_anchored-put r rs (c ∷ cs) b a =
    ground (arith, is_anchored-put r rs cs b, is_vouched-put (text c.ca_fingerprint) r rs b)

pub is_anchored-write_config :
    (id : ℕ) (cert key ca_cert fp : Bytes) (rs : List Authority) (cs : List VpnConfig)
    → (is_empty fp || is_vouched fp rs) ≡ true
    → is_anchored rs cs ≡ true
    → is_anchored rs (write_config id cert key ca_cert fp cs) ≡ true
unfolding is_anchored write_config
is_anchored-write_config id cert key ca_cert fp rs [] v a = refl
is_anchored-write_config id cert key ca_cert fp rs (c ∷ cs) v a =
    ground (arith, is_anchored-write_config id cert key ca_cert fp rs cs v)

-- The keys under the statements.
has_id-put :
    (id : ℕ) (r : Authority) (rs : List Authority)
    → has_id id (put r rs) ≡ (r.id == id || has_id id rs)
unfolding has_id put
has_id-put id r [] = refl
has_id-put id r (s ∷ rs) = ground (arith, has_id-put id r rs)

pub is_keyed-put :
    (r : Authority) (rs : List Authority)
    → ids_below r.id rs ≡ true
    → is_keyed rs ≡ true
    → is_keyed (put r rs) ≡ true
unfolding is_keyed put ids_below
is_keyed-put r [] b k = refl
is_keyed-put r (s ∷ rs) b k = ground (arith, is_keyed-put r rs, has_id-put s.id r rs)

pub ids_below-put :
    (r : Authority) (rs : List Authority)
    → ids_below r.id rs ≡ true
    → ids_below (suc r.id) (put r rs) ≡ true
unfolding put ids_below
ids_below-put r [] b = ground arith
ids_below-put r (s ∷ rs) b = ground (arith, ids_below-put r rs)

has_id-delete :
    (id j : ℕ) (rs : List Authority)
    → has_id j rs ≡ false
    → has_id j (delete_authority id rs) ≡ false
unfolding has_id delete_authority
has_id-delete id j [] h = refl
has_id-delete id j (r ∷ rs) h = ground (arith, has_id-delete id j rs)

pub is_keyed-delete_by :
    (id : ℤ) (rs : List Authority) → is_keyed rs ≡ true → is_keyed (delete_by id rs) ≡ true
unfolding is_keyed delete_authority
is_keyed-delete_by (negsuc id) rs k = k
is_keyed-delete_by (pos id) [] k = refl
is_keyed-delete_by (pos id) (r ∷ rs) k =
    ground (arith, is_keyed-delete_by (pos id) rs, has_id-delete id r.id rs)

pub ids_below-delete_by :
    (id : ℤ) (n : ℕ) (rs : List Authority)
    → ids_below n rs ≡ true
    → ids_below n (delete_by id rs) ≡ true
unfolding ids_below delete_authority
ids_below-delete_by (negsuc id) n rs b = b
ids_below-delete_by (pos id) n [] b = refl
ids_below-delete_by (pos id) n (r ∷ rs) b = ground (arith, ids_below-delete_by (pos id) n rs)
