-- ===== src/Network.antt =====
-- master/openvpn.c: cidr_to_netmask and calc_ip_pool. An address is its value as a number below
-- 2 ^ 32 in host order. `inet_aton` is a parameter; `inet_ntoa` prints four decimal numbers.
pub mod Netmask
pub mod Pool
use ovpn_manager.Prelude.{
  ℕ, zero, suc, ◌+◌, ◌-◌, ◌*◌, ◌/◌, ◌%◌, ◌^◌, Bool, true, false, not, ◌&&◌, ◌||◌, List, [], ◌∷◌,
  ◌++◌, Option, none, some, ◌==◌, ltb, leb, if◌then◌else◌, Bytes, take, length, contains,
}
use ovpn_manager.Prelude.Int.{ℤ, pos, negsuc, is_pos, atoi}
use ovpn_manager.Prelude.Decimal.{decimal}
use Prim.Native.Nat.{bit_and, bit_or}

unfoldable pub in_front : ℕ → Option (Bytes × Bytes) → Option (Bytes × Bytes)
in_front c none = none
in_front c (some (a, b)) = some (c ∷ a, b)

-- What stands in front of the first slash, and behind it: `strchr(s, '/')`.
unfoldable pub split_slash : Bytes → Option (Bytes × Bytes)
unfolding in_front
split_slash [] = none
split_slash (c ∷ s) =
    let rest = in_front c (split_slash s) in if c == b'/' then some ([], s) else rest

-- A prefix length that the code accepts: 0 to 32.
unfoldable pub prefix_of : ℤ → Option ℕ
prefix_of (pos n) = if leb n 32 then some n else none
prefix_of (negsuc n) = none

-- `for (int i = 0; i < bits; i++) nm |= (1 << (31 - i))`, from `i` on.
unfoldable pub mask_loop : ℕ → ℕ → ℕ → ℕ
mask_loop zero i nm = nm
mask_loop (suc n) i nm = mask_loop n (suc i) (bit_or nm (2 ^ (31 - i)))

-- "%d.%d.%d.%d" of the four bytes of a number.
unfoldable pub dotted : ℕ → Bytes
dotted nm =
    decimal (nm / 2 ^ 24 % 256)
    ++ (b'.'
        ∷ (decimal (nm / 2 ^ 16 % 256)
            ++ (b'.' ∷ (decimal (nm / 2 ^ 8 % 256) ++ (b'.' ∷ decimal (nm % 256))))))

-- The mask text for what stands behind the slash; empty for a length out of range.
unfoldable pub mask_text : Option ℕ → ℕ → Bytes
mask_text none mask_size = []
mask_text (some bits) mask_size = take (mask_size - 1) (dotted (mask_loop bits 0 0))

-- A text with no slash: a mask if it has a dot and a number in front, else a network.
unfoldable pub no_slash : Bytes → ℕ → ℕ → Bytes × Bytes
no_slash cidr net_size mask_size =
    if contains b'.' cidr && is_pos (atoi cidr)
    then ([], take (mask_size - 1) cidr)
    else (take (net_size - 1) cidr, [])

unfoldable pub at_slash : Option (Bytes × Bytes) → Bytes → ℕ → ℕ → Bytes × Bytes
unfolding mask_text prefix_of no_slash mask_loop dotted
at_slash none cidr net_size mask_size = no_slash cidr net_size mask_size
at_slash (some (net, suffix)) cidr net_size mask_size = (
  take (if leb net_size (length net) then net_size - 1 else length net) net,
  mask_text (prefix_of (atoi suffix)) mask_size,
)

-- `network` and `netmask`, for pointers that are not null.
unfoldable pub cidr_to_netmask : Bytes → ℕ → ℕ → Bytes × Bytes
unfolding at_slash split_slash
cidr_to_netmask cidr net_size mask_size = at_slash (split_slash cidr) cidr net_size mask_size

-- `bits == 0 ? 0 : (~0U) << (32 - bits)`
unfoldable pub cidr_mask : ℕ → ℕ
cidr_mask bits = if bits == 0 then 0 else (2 ^ 32 - 1) * 2 ^ (32 - bits) % 2 ^ 32

-- `start` and `end` of the pool.
unfoldable pub pool_range : ℕ → ℕ → ℕ × ℕ
pool_range ip mask = let network = bit_and ip mask in (bit_or network 100, bit_or network 200)

module _ (inet_aton : Bytes → Option ℕ) where
  -- The mask, dotted or behind a slash; `none` where the code returns 0.
  mask_behind : Option (Bytes × Bytes) → Option ℕ
  mask_behind none = none
  mask_behind (some (net, suffix)) = elim (prefix_of (atoi suffix)) [
    | none ↦ none
    | some bits ↦ some (cidr_mask bits)
  ]

  mask_value : Bytes → Option ℕ
  unfolding mask_behind
  mask_value subnet_mask = elim (inet_aton subnet_mask) [
    | some mask ↦ some mask
    | none ↦ mask_behind (split_slash subnet_mask)
  ]

  pool_text : Option ℕ → Option ℕ → ℕ → ℕ → Option (Bytes × Bytes)
  pool_text (some ip) (some mask) start_size end_size =
      let (start, last) = pool_range ip mask in
      some (take (start_size - 1) (dotted start), take (end_size - 1) (dotted last))
  pool_text _ _ start_size end_size = none

  -- `pool_start` and `pool_end`, or `none` where 0 is returned.
  unfoldable pub calc_ip_pool : Bytes → Bytes → ℕ → ℕ → Option (Bytes × Bytes)
  unfolding mask_value pool_text
  calc_ip_pool server_ip subnet_mask start_size end_size =
      pool_text (inet_aton server_ip) (mask_value subnet_mask) start_size end_size
