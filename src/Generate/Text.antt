-- ===== src/Generate/Text.antt =====
-- master/openvpn.c: write_cert_file, write_push_routes and generate_tun_config.
use ovpn_manager.Prelude.{
  ℕ, Bool, List, [], ◌∷◌, ◌++◌, Option, none, some, ◌==◌, if◌then◌else◌, Bytes, codes, eqb,
  is_empty, concat,
}
use ovpn_manager.Network.{cidr_to_netmask}

-- The loop that drops every '\r'.
unfoldable pub strip_cr : Bytes → Bytes
strip_cr [] = []
strip_cr (c ∷ s) = if c == 13 then strip_cr s else c ∷ strip_cr s

-- The last byte of `c ∷ s`.
unfoldable pub last_byte : ℕ → Bytes → ℕ
last_byte c [] = c
last_byte c (d ∷ s) = last_byte d s

-- What write_cert_file writes: nothing, or a text. For a text that is empty without its '\r' it
-- reads the byte in front of the buffer.
pub data Written : Type 0 where
  nothing out_of_bounds : Written
  contents : Bytes → Written

unfoldable pub with_newline : Bytes → Written
unfolding last_byte
with_newline [] = out_of_bounds
with_newline (c ∷ s) = contents (if last_byte c s == 10 then c ∷ s else (c ∷ s) ++ (10 ∷ []))

-- `opened`: fopen gives a file.
unfoldable pub write_cert_file : Bool → Bytes → Written
unfolding strip_cr with_newline
write_cert_file opened [] = nothing
write_cert_file opened (c ∷ s) = if opened then with_newline (strip_cr (c ∷ s)) else nothing

-- The text in front of the last byte, if the last byte is '}'.
unfoldable pub in_braces : Bytes → Option Bytes
in_braces [] = none
in_braces (c ∷ []) = if c == b'}' then some [] else none
in_braces (c ∷ d ∷ s) = elim (in_braces (d ∷ s)) [ none ↦ none | some t ↦ some (c ∷ t) ]

-- `str + 1` up to the closing brace; in "{" alone the first byte is the last one, and no brace.
unfoldable pub array_content : Bytes → Option Bytes
unfolding in_braces
array_content [] = none
array_content (c ∷ s) = if c == b'{' then in_braces s else none

-- strtok_r(..., ","), with `acc` the token so far: empty tokens are skipped.
unfoldable pub token_of : Bytes → List Bytes → List Bytes
token_of acc rest = if is_empty acc then rest else acc ∷ rest

unfoldable pub tokens_of : Bytes → Bytes → List Bytes
unfolding token_of
tokens_of acc [] = token_of acc []
tokens_of acc (c ∷ s) =
    let rest = tokens_of [] s in
    let more = tokens_of (acc ++ (c ∷ [])) s in if c == b',' then token_of acc rest else more

-- `while (*token == ' ') token++`
unfoldable pub skip_spaces : Bytes → Bytes
skip_spaces [] = []
skip_spaces (c ∷ s) = let rest = skip_spaces s in if c == b' ' then rest else c ∷ s

-- A line for each token, between `front` and `back`.
unfoldable pub push_lines : Bytes → Bytes → List Bytes → Bytes
unfolding skip_spaces
push_lines front back [] = []
push_lines front back (t ∷ ts) =
    concat (front ∷ skip_spaces t ∷ back ∷ []) ++ push_lines front back ts

-- The lines for the elements of an array text; none for a text that is no array.
unfoldable pub push_array : Bytes → Bytes → Bytes → Bytes
unfolding push_lines array_content tokens_of
push_array front back raw =
    if eqb raw (codes "{}")
    then []
    else elim (array_content raw) [ none ↦ [] | some s ↦ push_lines front back (tokens_of [] s) ]

-- The row of vpn_config_tun, as PQgetvalue gives it.
pub record Tun : Type 0 where
  pub server_ip : Bytes
  pub subnet_mask : Bytes
  pub push_dns : Bytes
  pub enable_nat : Bytes
  pub push_redirect_gateway : Bytes
  pub push_routes : Bytes

-- The line `server`, for the network and the mask that cidr_to_netmask finds.
unfoldable pub server_line : Bytes → Bytes → Bytes × Bytes → Bytes
server_line server_ip subnet_mask (network, netmask) =
    if is_empty netmask
    then concat (codes "server " ∷ server_ip ∷ codes " " ∷ subnet_mask ∷ codes "\n" ∷ [])
    else if is_empty network
    then concat (codes "server " ∷ server_ip ∷ codes " " ∷ netmask ∷ codes "\n" ∷ [])
    else concat (codes "server " ∷ network ∷ codes " " ∷ netmask ∷ codes "\n" ∷ [])

-- "; NAT 功能已启用，请确保 iptables 规则已配置\n" in UTF-8.
abbrev pub nat_notice : Bytes
nat_notice =
    59 ∷ 32 ∷ 78 ∷ 65 ∷ 84 ∷ 32 ∷ 229 ∷ 138 ∷ 159 ∷ 232 ∷ 131 ∷ 189 ∷ 229 ∷ 183 ∷ 178 ∷ 229 ∷ 144
    ∷ 175 ∷ 231 ∷ 148 ∷ 168 ∷ 239 ∷ 188 ∷ 140 ∷ 232 ∷ 175 ∷ 183 ∷ 231 ∷ 161 ∷ 174 ∷ 228 ∷ 191 ∷ 157
    ∷ 32 ∷ 105 ∷ 112 ∷ 116 ∷ 97 ∷ 98 ∷ 108 ∷ 101 ∷ 115 ∷ 32 ∷ 232 ∷ 167 ∷ 132 ∷ 229 ∷ 136 ∷ 153
    ∷ 229 ∷ 183 ∷ 178 ∷ 233 ∷ 133 ∷ 141 ∷ 231 ∷ 189 ∷ 174 ∷ 10 ∷ []

unfoldable pub tun_config : Tun → Bytes
unfolding server_line push_array
tun_config t =
    codes "dev tun\ntopology subnet\ncipher AES-256-GCM\n"
    ++ ((if is_empty t.subnet_mask
          then []
          else server_line t.server_ip t.subnet_mask (cidr_to_netmask t.subnet_mask 64 64))
        ++ (push_array (codes "push \"dhcp-option DNS ") (codes "\"\n") t.push_dns
            ++ ((if eqb t.push_redirect_gateway (codes "t")
                  then codes "push \"redirect-gateway def1\"\n"
                  else [])
                ++ (push_array (codes "push \"route ") (codes "\"\n") t.push_routes
                    ++ (if eqb t.enable_nat (codes "t") then nat_notice else [])))))
