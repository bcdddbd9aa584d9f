-- ===== src/Network/Pool.antt =====
-- The address pool of a bridge against the subnet of its server.
use ovpn_manager.Prelude.{
  ℕ, zero, suc, ◌+◌, ◌-◌, ◌*◌, ◌/◌, ◌%◌, ◌^◌, ◌≤◌, ◌<◌, ◌≡◌, ap, ap₂, sym, ◌∙◌, arith, ◌⊎◌, subst,
}
use ovpn_manager.Prelude.Bits.{bit_or-parts, bit_or-zero, bit_or-one, bit_and-parts, bit_and-ones}
use ovpn_manager.Network.{pool_range}
use ovpn_manager.Network.Netmask.{leading_ones}
use native.Mathlib.Nat.{pow-suc, one-le-pow}
use Prim.Native.Nat.{bit_and, bit_or}

-- The network address of `ip` where `k` bits are left for hosts.
abbrev pub network_of : ℕ → ℕ → ℕ
network_of ip k = ip / 2 ^ k * 2 ^ k

-- 2 ^ (n + k), as a product.
pow_split : (n k : ℕ) → 2 ^ (n + k) ≡ 2 ^ n * 2 ^ k
pow_split zero k = ground arith
pow_split (suc n) k = omega (
  arith,
  pow_split n k,
  pow-suc 2 n,
  pow-suc 2 (n + k),
  ap (λ (t : ℕ). 2 ^ t) (suc_move n k),
  ap (λ (t : ℕ). t * 2 ^ k) (pow-suc 2 n),
)
  where
    suc_move : (a b : ℕ) → suc a + b ≡ suc (a + b)
    suc_move a b = omega arith

sub_one_mul : (a d : ℕ) → (a - 1) * d ≡ a * d - d
sub_one_mul zero d = omega arith
sub_one_mul (suc a) d = let e : suc a - 1 ≡ a = omega arith in rw e (omega arith)

div_bound : (a m d : ℕ) → 1 ≤ d → a < m * d → a / d < m
div_bound a m d p h = grind arith

-- `ip & mask` is the network address.
and-network :
    (ip n k : ℕ) → ip < 2 ^ n * 2 ^ k → bit_and ip (2 ^ n * 2 ^ k - 2 ^ k) ≡ network_of ip k
and-network ip n k h =
    let x = ip / 2 ^ k in
    let r = ip % 2 ^ k in
    let one : 1 ≤ 2 ^ k = one-le-pow k 2 (omega arith) in
    let whole : x * 2 ^ k + r ≡ ip = grind arith in
    let mask : (2 ^ n - 1) * 2 ^ k ≡ 2 ^ n * 2 ^ k - 2 ^ k = sub_one_mul (2 ^ n) (2 ^ k) in
    let small : x < 2 ^ n = div_bound ip (2 ^ n) (2 ^ k) one h in
    ap₂ bit_and (sym whole) (sym mask)
    ∙ bit_and-parts k x (2 ^ n - 1) r (omega arith)
    ∙ ap (λ (t : ℕ). t * 2 ^ k) (bit_and-ones n x small)

-- `|` of a multiple of 256 and a number below 256.
or-low_byte : (q r : ℕ) → r < 256 → bit_or (q * 256) r ≡ q * 256 + r
or-low_byte q r h =
    let plain : r ≡ 0 * 2 ^ 8 + r = omega arith in
    ap (bit_or (q * 256)) plain
    ∙ bit_or-parts 8 q 0 r h
    ∙ ap (λ (t : ℕ). t * 256 + r) (bit_or-zero q)

and-leading_ones :
    (ip bits : ℕ)
    → ip < 2 ^ 32
    → bits ≤ 32
    → bit_and ip (leading_ones bits) ≡ network_of ip (32 - bits)
and-leading_ones ip bits h le =
    let full : 2 ^ 32 ≡ 2 ^ bits * 2 ^ (32 - bits) =
      let total : 32 ≡ bits + (32 - bits) = omega arith in
      ap (λ (t : ℕ). 2 ^ t) total ∙ pow_split bits (32 - bits) in
    ap (λ (t : ℕ). bit_and ip (t - 2 ^ (32 - bits))) full
    ∙ and-network ip bits (32 - bits) (subst (λ t. ip < t) full h)

div_floor : (a d : ℕ) → 1 ≤ d → (a / d * d ≤ a) × (a < a / d * d + d)
div_floor a d p = (grind arith, grind arith)

pool_above :
    (network q : ℕ)
    → network ≡ q * 256
    → ◌≡◌ {A = ℕ × ℕ} (bit_or network 100, bit_or network 200) (network + 100, network + 200)
pool_above network q e =
    ap₂ (λ (a b : ℕ). (let p : ℕ × ℕ = (a, b) in p))
      (ap (λ (t : ℕ). bit_or t 100) e ∙ or-low_byte q 100 (omega arith) ∙ omega arith)
      (ap (λ (t : ℕ). bit_or t 200) e ∙ or-low_byte q 200 (omega arith) ∙ omega arith)

host_part : (bits : ℕ) → bits ≤ 24 → 2 ^ (32 - bits) ≡ 2 ^ (24 - bits) * 256
host_part bits le =
    let total : 32 - bits ≡ (24 - bits) + 8 = omega arith in
    ap (λ (t : ℕ). 2 ^ t) total ∙ pow_split (24 - bits) 8

-- For every address and every prefix of at most 24 bits the pool is .100 to .200 above the network
-- address, and lies in the server's own subnet.
pub pool_range-in_subnet :
    (ip bits : ℕ)
    → ip < 2 ^ 32
    → bits ≤ 24
    → (pool_range ip (leading_ones bits)
        ≡ (network_of ip (32 - bits) + 100, network_of ip (32 - bits) + 200))
      × (network_of ip (32 - bits) ≤ ip)
      × (ip < network_of ip (32 - bits) + 2 ^ (32 - bits))
      × (200 < 2 ^ (32 - bits))
unfolding pool_range
pool_range-in_subnet ip bits h le =
    let k = 32 - bits in
    let q = ip / 2 ^ k * 2 ^ (24 - bits) in
    let split : 2 ^ k ≡ 2 ^ (24 - bits) * 256 = host_part bits le in
    let one : 1 ≤ 2 ^ (24 - bits) = one-le-pow (24 - bits) 2 (omega arith) in
    let pos_k : 1 ≤ 2 ^ k = one-le-pow k 2 (omega arith) in
    let multiple : network_of ip k ≡ q * 256 =
      omega (arith, ap (λ (t : ℕ). ip / 2 ^ k * t) split) in
    let floor = div_floor ip (2 ^ k) pos_k in
    (
      rw (and-leading_ones ip bits h (omega arith)) (pool_above (network_of ip k) q multiple),
      floor.0,
      floor.1,
      omega arith,
    )

-- With a prefix of 25 bits the pool is never usable: it ends outside the server's subnet, or its end
-- is below its start.
pub pool_range_25 :
    (ip : ℕ)
    → ip < 2 ^ 32
    → (network_of ip 7 + 2 ^ 7 ≤ (pool_range ip (leading_ones 25)).1)
      ⊎ ((pool_range ip (leading_ones 25)).1 < (pool_range ip (leading_ones 25)).0)
unfolding pool_range
pool_range_25 ip h =
    let q = ip / 128 in
    let net : bit_and ip (leading_ones 25) ≡ q * 128 = and-leading_ones ip 25 h (omega arith) in
    let first : bit_or (q * 128) 100 ≡ bit_or q 0 * 128 + 100 =
      bit_or-parts 7 q 0 100 (omega arith) in
    let last : bit_or (q * 128) 200 ≡ bit_or q 1 * 128 + 72 = bit_or-parts 7 q 1 72 (omega arith) in
    rw net (omega (arith, first, last, bit_or-zero q, bit_or-one q))
