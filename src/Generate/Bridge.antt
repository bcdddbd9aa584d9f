-- ===== src/Generate/Bridge.antt =====
-- master/openvpn.c: generate_tap_config and ensure_bridge_exists.
use ovpn_manager.Prelude.{
  ℕ, Bool, true, false, not, ◌&&◌, List, [], ◌∷◌, ◌++◌, Option, none, some, if◌then◌else◌, Bytes,
  codes, eqb, is_empty, take, concat,
}
use ovpn_manager.Prelude.Decimal.{decimal}
use ovpn_manager.Network.{calc_ip_pool}

-- The row of vpn_config_tap, as PQgetvalue gives it.
pub record Tap : Type 0 where
  pub bridge_name : Bytes
  pub physical_if : Bytes
  pub dhcp_mode : Bytes
  pub server_ip : Bytes
  pub subnet_mask : Bytes

unfoldable pub ifconfig_line : Tap → Bytes
ifconfig_line t =
    if is_empty t.server_ip
    then []
    else if is_empty t.subnet_mask
    then []
    else concat (codes "ifconfig " ∷ t.server_ip ∷ codes " " ∷ t.subnet_mask ∷ codes "\n" ∷ [])

module _ (inet_aton : Bytes → Option ℕ) where
  -- The arguments of server-bridge: with the pool that calc_ip_pool finds in 32 bytes each, else
  -- with a fixed one.
  unfoldable pub bridge_pool : Tap → Option (Bytes × Bytes) → Bytes
  bridge_pool t (some (first, last)) =
      concat (t.server_ip ∷ codes " " ∷ t.subnet_mask ∷ codes " " ∷ first ∷ codes " " ∷ last ∷ [])
  bridge_pool t none =
      if is_empty t.server_ip
      then codes "192.168.10.1 255.255.255.0 192.168.10.128 192.168.10.254"
      else t.server_ip ++ codes " 255.255.255.0 192.168.10.128 192.168.10.254"

  unfoldable pub pool_of : Tap → Option (Bytes × Bytes)
  pool_of t =
      if not (is_empty t.server_ip) && not (is_empty t.subnet_mask)
      then calc_ip_pool inet_aton t.server_ip t.subnet_mask 32 32
      else none

  unfoldable pub bridged_lines : ℕ → Tap → Bytes
  unfolding bridge_pool pool_of ifconfig_line
  bridged_lines id t =
      if eqb t.dhcp_mode (codes "server")
      then concat (
          codes "mode server\ntls-server\nserver-bridge "
          ∷ bridge_pool t (pool_of t)
          ∷ codes "\nifconfig-pool-persist /var/log/openvpn/ipp-"
          ∷ decimal id
          ∷ codes ".txt\n"
          ∷ [])
      else ifconfig_line t

  unfoldable pub bridge_lines : ℕ → Tap → Bytes
  unfolding bridged_lines ifconfig_line
  bridge_lines id t =
      if is_empty t.bridge_name
      then ifconfig_line t
      else if is_empty t.physical_if
      then concat (codes "dev-node " ∷ t.bridge_name ∷ codes "\n" ∷ ifconfig_line t ∷ [])
      else bridged_lines id t

  unfoldable pub tap_config : ℕ → Tap → Bytes
  unfolding bridge_lines
  tap_config id t =
      codes "dev tap\ncipher AES-256-GCM\nclient-to-client\n"
      ++ (bridge_lines id t
          ++ (if eqb t.dhcp_mode (codes "relay")
              then codes "; DHCP relay mode - requires external DHCP relay agent\n"
              else []))

-- The commands of ensure_bridge_exists, each cut to the 255 bytes of `cmd`.
unfoldable pub show_bridge : Bytes → Bytes
show_bridge br = take 255 (concat (codes "ip link show " ∷ br ∷ codes " >/dev/null 2>&1" ∷ []))

unfoldable pub add_bridge : Bytes → Bytes
add_bridge br = take 255 (concat (codes "ip link add name " ∷ br ∷ codes " type bridge" ∷ []))

unfoldable pub enslave : Bytes → Bytes → Bytes
enslave br dev = take 255 (concat (codes "ip link set dev " ∷ dev ∷ codes " master " ∷ br ∷ []))

unfoldable pub bridge_up : Bytes → Bytes
bridge_up br = take 255 (concat (codes "ip link set dev " ∷ br ∷ codes " up" ∷ []))

-- The commands run, in order, and whether 0 is returned. `system c` says that a command returns 0.
unfoldable pub ensure_bridge_exists : (Bytes → Bool) → Bytes → Bytes → List Bytes × Bool
unfolding show_bridge add_bridge enslave bridge_up
ensure_bridge_exists system br dev =
    if system (show_bridge br)
    then (show_bridge br ∷ [], true)
    else if not (system (add_bridge br))
    then (show_bridge br ∷ add_bridge br ∷ [], false)
    else if not (system (enslave br dev))
    then (show_bridge br ∷ add_bridge br ∷ enslave br dev ∷ [], false)
    else (show_bridge br ∷ add_bridge br ∷ enslave br dev ∷ bridge_up br ∷ [], true)

-- Its result is not looked at.
unfoldable pub tap_commands : (Bytes → Bool) → Tap → List Bytes
unfolding ensure_bridge_exists
tap_commands system t =
    if is_empty t.bridge_name
    then []
    else if is_empty t.physical_if
    then []
    else (ensure_bridge_exists system t.bridge_name t.physical_if).0
