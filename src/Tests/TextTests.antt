-- ===== src/Tests/TextTests.antt =====
-- Certificates, masks and pools on concrete texts.
use ovpn_manager.Prelude.{
  ℕ, ◌+◌, ◌^◌, ◌≤◌, ◌<◌, ◌≡◌, refl, false, [], ◌∷◌, ◌++◌, Option, none, some, ◌==◌, if◌then◌else◌,
  arith, length, inl, Bytes, codes, eqb, eqb_refl,
}
use ovpn_manager.Prelude.Decimal.{decimal}
use ovpn_manager.Certs.{
  Pem, escape_sql_string, fingerprint_to_hex, decrypt_private_key, encrypt_private_key,
}
use ovpn_manager.Certs.Escape.{literal, escape_sql_string-literal}
use ovpn_manager.Certs.Keys.{decrypt-encrypt}
use ovpn_manager.Network.{cidr_to_netmask, pool_range, mask_loop, cidr_mask, dotted}
use ovpn_manager.Network.Netmask.{
  leading_ones, octets, mask_octets, mask_loop-cidr_mask, cidr_to_netmask-cidr,
}
use ovpn_manager.Network.Pool.{network_of, pool_range-in_subnet}

abbrev robert : Bytes
robert = codes "Robert'); DROP TABLE vpn_users;--"

escape_sql_string-literal_example :
    (text : Bytes) × (size : ℕ) × (escape_sql_string (some robert) ≡ some (text, size))
    × (literal false (text ++ b'\'' ∷ codes ")") ≡ some (robert, codes ")"))
    × (length text + 1 ≡ size)
escape_sql_string-literal_example = escape_sql_string-literal robert (codes ")") refl

fingerprint_run : fingerprint_to_hex (0xde ∷ 0x07 ∷ []) ≡ codes "DE07"
unfolding fingerprint_to_hex
fingerprint_run = refl

-- A store of keys: the key, a mark, and the password.
abbrev pub toy_write : ℕ → Option Bytes → Option Bytes
toy_write k none = some (k ∷ 0 ∷ [])
toy_write k (some p) = some (k ∷ 1 ∷ p)

abbrev pub toy_read : Bytes → Option Bytes → Option ℕ
toy_read (k ∷ m ∷ q) none = if m == 0 then some k else none
toy_read (k ∷ m ∷ q) (some p) = if m == 1 then (if eqb q p then some k else none) else none
toy_read _ _ = none

pub toy_read-write :
    (k : ℕ) (p pem : Bytes) → toy_write k (some p) ≡ some pem → toy_read pem (some p) ≡ some k
toy_read-write k p pem e = ground (arith, eqb_refl p)

abbrev pub toy : Pem
toy = record { Key = ℕ; write = toy_write; read = toy_read; read-write = toy_read-write }

decrypt-encrypt_example :
    decrypt_private_key toy (codes "system") (9 ∷ 1 ∷ codes "system") (some (codes "user")) ≡ some 9
unfolding encrypt_private_key
decrypt-encrypt_example =
    decrypt-encrypt toy (codes "system") 9 (codes "user") (9 ∷ 1 ∷ codes "system") (inl (λ e. cc))
      refl

mask_loop-cidr_mask_example : (mask_loop 20 0 0 ≡ 0xfffff000) × (cidr_mask 20 ≡ 0xfffff000)
mask_loop-cidr_mask_example = mask_loop-cidr_mask 20 (omega arith)

cidr_to_netmask-cidr_example :
    let (network, netmask) = cidr_to_netmask (codes "10.8.0.0" ++ b'/' ∷ decimal 24) 64 64 in
    (network ≡ codes "10.8.0.0") × (octets netmask ≡ mask_octets 24)
cidr_to_netmask-cidr_example =
    cidr_to_netmask-cidr (codes "10.8.0.0") 24 refl (omega arith) (omega arith)

mask_run : dotted (leading_ones 20) ≡ codes "255.255.240.0"
unfolding dotted decimal
mask_run = refl

-- 192.168.10.7
abbrev server : ℕ
server = 0xc0a80a07

pool_range-in_subnet_example :
    (pool_range server (leading_ones 24) ≡ (network_of server 8 + 100, network_of server 8 + 200))
    × (network_of server 8 ≤ server)
    × (server < network_of server 8 + 2 ^ 8)
    × (200 < 2 ^ 8)
pool_range-in_subnet_example = pool_range-in_subnet server 24 (omega arith) (omega arith)
