-- ===== src/Server/Recorded.antt =====
-- The rows of vpn_config and system_logs that apply_config and stop_config write.
use ovpn_manager.Prelude.{
  ℕ, ◌≡◌, refl, ◌⊎◌, inl, inr, Bool, true, false, List, [], ◌∷◌, some, ◌==◌, if◌then◌else◌, Bytes,
  codes, arith,
}
use ovpn_manager.Prelude.Int.{ℤ, pos}
use ovpn_manager.Schema.{VpnConfig}
use ovpn_manager.Requests.{error, ok, not_started, not_stopped}
use ovpn_manager.Authorities.Rows.{find_config}
use ovpn_manager.Server.{finish_apply, finish_stop}
use ovpn_manager.Server.State.{
  Daemon, SystemEvent, applied, not_applied, halted, not_halted, set_status, update_status,
  log_system_event,
}

find-set_status_ne :
    (id j : ℕ) (s : Bytes) (cs : List VpnConfig)
    → (j == id) ≡ false
    → find_config j (set_status id s cs) ≡ find_config j cs
unfolding find_config set_status
find-set_status_ne id j s [] n = refl
find-set_status_ne id j s (x ∷ cs) n = ground (arith, find-set_status_ne id j s cs)

find-set_status_eq :
    (id : ℕ) (s : Bytes) (cs : List VpnConfig) (c : VpnConfig)
    → find_config id cs ≡ some c
    → find_config id (set_status id s cs) ≡ some (record c { status = s })
unfolding find_config set_status
find-set_status_eq id s [] c e = cc
find-set_status_eq id s (x ∷ cs) c e = ground (arith, find-set_status_eq id s cs c)

find-set_status :
    (id j : ℕ) (s : Bytes) (cs : List VpnConfig) (c : VpnConfig)
    → find_config id cs ≡ some c
    → find_config j (set_status id s cs)
      ≡ (if j == id then some (record c { status = s }) else find_config j cs)
find-set_status id j s cs c e =
    ground (arith, find-set_status_ne id j s cs, find-set_status_eq id s cs c)

-- The state with the status that was written, and the row of system_logs.
abbrev pub recorded : Bool → Bool → ℤ → Bytes → SystemEvent → Daemon → Daemon
recorded updated logged z s e d = log_system_event logged e (update_status updated z s d)

pub finish_apply_cases :
    (u l : Bool) (z : ℤ) (x : Daemon × Bool)
    → ((x.1 ≡ true)
        × (finish_apply u l z x ≡ (recorded u l z (codes "running") (applied z) x.0, ok)))
      ⊎ ((x.1 ≡ false)
          × (finish_apply u l z x ≡ (log_system_event l (not_applied z) x.0, error not_started)))
unfolding finish_apply
finish_apply_cases u l z (d, true) = inl (refl, refl)
finish_apply_cases u l z (d, false) = inr (refl, refl)

pub finish_stop_cases :
    (u l : Bool) (z : ℤ) (x : Daemon × Bool)
    → ((x.1 ≡ true) × (finish_stop u l z x ≡ (recorded u l z (codes "stopped") (halted z) x.0, ok)))
      ⊎ ((x.1 ≡ false)
          × (finish_stop u l z x ≡ (log_system_event l (not_halted z) x.0, error not_stopped)))
unfolding finish_stop
finish_stop_cases u l z (d, true) = inl (refl, refl)
finish_stop_cases u l z (d, false) = inr (refl, refl)

-- What `recorded` leaves alone, and the row that it changes.
module _ (u l : Bool) (id : ℕ) (s : Bytes) (e : SystemEvent) (d : Daemon) where
  pub registry-recorded : (recorded u l (pos id) s e d).registry ≡ d.registry
  unfolding log_system_event update_status
  registry-recorded = ground arith

  pub files-recorded : (recorded u l (pos id) s e d).files ≡ d.files
  unfolding log_system_event update_status
  files-recorded = ground arith

  pub row-recorded :
      (j : ℕ) (c : VpnConfig)
      → find_config id d.tables.configs ≡ some c
      → find_config j (recorded u l (pos id) s e d).tables.configs ≡ (
          if j == id
          then some (record c { status = if u then s else c.status })
          else find_config j d.tables.configs)
  unfolding log_system_event update_status
  row-recorded j c found = ground (arith, find-set_status id j s d.tables.configs c)

module _ (l : Bool) (e : SystemEvent) (d : Daemon) where
  pub registry-logged : (log_system_event l e d).registry ≡ d.registry
  unfolding log_system_event
  registry-logged = ground arith

  pub tables-logged : (log_system_event l e d).tables ≡ d.tables
  unfolding log_system_event
  tables-logged = ground arith

  pub signals-logged : (log_system_event l e d).signals ≡ d.signals
  unfolding log_system_event
  signals-logged = ground arith
