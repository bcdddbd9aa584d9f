-- ===== src/Authorities/Rows.antt =====
-- The tables vpn_ca and vpn_config, as far as master/ca_handler.c reads and writes them, and its
-- SQL statements.
use ovpn_manager.Prelude.{
  ℕ, suc, Bool, false, ◌||◌, List, [], ◌∷◌, Option, none, some, ◌==◌, ltb, if◌then◌else◌, Bytes,
  eqb,
}
use ovpn_manager.Prelude.Int.{ℤ, pos, negsuc}
use ovpn_manager.Schema.{Authority, VpnConfig, Tables}

-- SELECT ... FROM vpn_ca WHERE id = %d
unfoldable pub find_authority : ℕ → List Authority → Option Authority
find_authority id [] = none
find_authority id (r ∷ rs) = if r.id == id then some r else find_authority id rs

abbrev pub find_by : ℤ → List Authority → Option Authority
find_by (pos id) rs = find_authority id rs
find_by (negsuc id) rs = none

-- SELECT ... FROM vpn_ca ORDER BY created_at DESC LIMIT 1
unfoldable pub newest : Authority → List Authority → Authority
newest r [] = r
newest r (s ∷ rs) = newest (if ltb r.created_at s.created_at then s else r) rs

unfoldable pub latest : List Authority → Option Authority
latest [] = none
latest (r ∷ rs) = some (newest r rs)

-- The row to sign with: that of `ca_id`, if it is given.
abbrev pub chosen : Option ℤ → List Authority → Option Authority
chosen none rs = latest rs
chosen (some id) rs = find_by id rs

-- DELETE FROM vpn_ca WHERE id = %d
unfoldable pub delete_authority : ℕ → List Authority → List Authority
delete_authority id [] = []
delete_authority id (r ∷ rs) =
    if r.id == id then delete_authority id rs else r ∷ delete_authority id rs

abbrev pub delete_by : ℤ → List Authority → List Authority
delete_by (pos id) rs = delete_authority id rs
delete_by (negsuc id) rs = rs

-- `ca_fingerprint = $1`, which NULL does not satisfy.
abbrev pub equals : Option Bytes → Bytes → Bool
equals none fp = false
equals (some s) fp = eqb s fp

-- SELECT 1 FROM vpn_config WHERE ca_fingerprint = $1 LIMIT 1
unfoldable pub is_referenced : Bytes → List VpnConfig → Bool
is_referenced fp [] = false
is_referenced fp (c ∷ cs) = equals c.ca_fingerprint fp || is_referenced fp cs

-- INSERT INTO vpn_ca ... ON CONFLICT (id) DO UPDATE SET ..., with the id of the serial column.
unfoldable pub put : Authority → List Authority → List Authority
put r [] = r ∷ []
put r (s ∷ rs) = if s.id == r.id then r ∷ rs else s ∷ put r rs

unfoldable pub upsert : Bytes → Bytes → Bytes → Bytes → ℕ → Tables → Tables
unfolding put
upsert ca_cert cn ca_key fp now db = record db {
  authorities =
      put
        (record {
          id = db.next_id;
          common_name = cn;
          ca_cert = ca_cert;
          ca_key = ca_key;
          ca_fingerprint = some fp;
          created_at = now;
        })
        db.authorities;
  next_id = suc db.next_id;
}

-- SELECT ... FROM vpn_config WHERE id = %d
unfoldable pub find_config : ℕ → List VpnConfig → Option VpnConfig
find_config id [] = none
find_config id (c ∷ cs) = if c.id == id then some c else find_config id cs

abbrev pub config_by : ℤ → List VpnConfig → Option VpnConfig
config_by (pos id) cs = find_config id cs
config_by (negsuc id) cs = none

-- The columns that the UPDATE of handle_sign_server_cert writes.
abbrev pub with_cert : Bytes → Bytes → Bytes → Bytes → VpnConfig → VpnConfig
with_cert cert key ca_cert fp c = record c {
  server_cert = some cert;
  server_key = some key;
  ca_cert = some ca_cert;
  ca_fingerprint = some fp;
}

-- UPDATE vpn_config SET server_cert = $1, ... WHERE id = $5
unfoldable pub write_config : ℕ → Bytes → Bytes → Bytes → Bytes → List VpnConfig → List VpnConfig
write_config id cert key ca_cert fp [] = []
write_config id cert key ca_cert fp (c ∷ cs) =
    (if c.id == id then with_cert cert key ca_cert fp c else c)
    ∷ write_config id cert key ca_cert fp cs

unfoldable pub update_config : ℤ → Bytes → Bytes → Bytes → Bytes → Tables → Tables
unfolding write_config
update_config (negsuc id) cert key ca_cert fp db = db
update_config (pos id) cert key ca_cert fp db = record db {
  configs = write_config id cert key ca_cert fp db.configs;
}
