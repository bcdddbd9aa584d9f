-- ===== src/Startup.antt =====
-- master/main.c: the start of the daemon, up to the socket server.
pub mod Serving
use ovpn_manager.Prelude.{
  ℕ, Bool, true, false, not, ◌&&◌, Option, none, some, if◌then◌else◌, Bytes, is_empty,
}
use ovpn_manager.Config.{Config, ConfigFile, parse_config}
use ovpn_manager.Setup.{Site, SchemaAnswers, generate_random_key, init_database}

-- `config`: what the scanner gives for the configuration file. `connected`: connect_db returns 0.
-- `answered`: the query of check_db_initialized gives a result.
pub record Answers : Type 0 where
  pub config : ConfigFile
  pub random_bytes : Option Bytes
  pub time : ℕ
  pub connected : Bool
  pub answered : Bool
  pub schema : SchemaAnswers

-- The daemon exits with EXIT_FAILURE, or serves with a configuration.
pub data Start : Type 0 where
  exit_failure : Start
  serving : Config → Start

-- The key of the configuration, or a random one in its 64 bytes.
unfoldable pub with_key : Answers → Config → Config
with_key a c =
    if is_empty c.encryption_key
    then record c { encryption_key = generate_random_key a.random_bytes a.time 64 }
    else c

-- `check_db_initialized() == 0`; where the query fails, -1 is returned.
unfoldable pub is_missing : Answers → Site → Bool
is_missing a s = a.answered && not s.initialized

abbrev pub finish : Config → Option (Site × Bool) → Option (Site × Start)
finish c none = none
finish c (some (s, true)) = some (s, serving c)
finish c (some (s, false)) = some (s, exit_failure)

unfoldable pub start_with : Answers → Config → Site → Option (Site × Start)
unfolding is_missing
start_with a c s =
    if a.connected
    then (if is_missing a s then finish c (init_database a.schema c s) else some (s, serving c))
    else some (s, exit_failure)

-- `none` is undefined.
unfoldable pub start_daemon : Answers → Site → Option (Site × Start)
unfolding start_with with_key
start_daemon a s = elim (parse_config a.config) [
  | none ↦ some (s, exit_failure)
  | some c ↦ start_with a (with_key a c) s
]
