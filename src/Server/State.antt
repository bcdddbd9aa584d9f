-- ===== src/Server/State.antt =====
-- The state of the daemon, and the statements of master/socket_server.c on it.
use ovpn_manager.Prelude.{
  ℕ, ◌-◌, ◌^◌, Bool, true, false, List, [], ◌∷◌, ◌++◌, ◌==◌, if◌then◌else◌, Bytes,
}
use ovpn_manager.Prelude.Int.{ℤ, pos, negsuc}
use ovpn_manager.Schema.{VpnConfig, Tables}
use ovpn_manager.Monitor.{Registry}
use ovpn_manager.Process.{Signal}
use ovpn_manager.Generate.{Files}

-- A row of system_logs, by the text that log_system_event is given.
pub data SystemEvent : Type 0 where
  applied not_applied halted not_halted : ℤ → SystemEvent
  issued : Bytes → ℕ → SystemEvent

-- The state behind the handlers: the monitors, the tables, the files that openvpn.c writes, and
-- what was sent or written so far: signals, commands with the configuration to whose management
-- socket they went, rows of system_logs, and the ids under which vpn_admins was updated.
pub record Daemon : Type 0 where
  pub registry : Registry
  pub tables : Tables
  pub files : Files
  pub signals : List Signal
  pub management : List (ℤ × Bytes)
  pub events : List SystemEvent
  pub logins : List ℤ

-- An `int` as the key of a monitor: its 32 bits.
abbrev pub word_of : ℤ → ℕ
word_of (pos n) = n
word_of (negsuc n) = 2 ^ 32 - 1 - n

-- UPDATE vpn_config SET status = '...' WHERE id = %d
unfoldable pub set_status : ℕ → Bytes → List VpnConfig → List VpnConfig
set_status id s [] = []
set_status id s (c ∷ cs) = (if c.id == id then record c { status = s } else c) ∷ set_status id s cs

unfoldable pub update_status : Bool → ℤ → Bytes → Daemon → Daemon
unfolding set_status
update_status true (pos id) s d = record d {
  tables = record d.tables { configs = set_status id s d.tables.configs };
}
update_status b z s d = d

unfoldable pub log_system_event : Bool → SystemEvent → Daemon → Daemon
log_system_event true e d = record d { events = d.events ++ e ∷ [] }
log_system_event false e d = d
