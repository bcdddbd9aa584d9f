-- ===== src/Server/Apply.antt =====
-- What applying and stopping a configuration does to the daemon.
use ovpn_manager.Prelude.{
  ℕ, ◌≡◌, refl, ap, ◌∙◌, ◌⊎◌, ◌↔◌, inl, inr, Bool, true, false, ◌++◌, Option, some, ◌==◌,
  if◌then◌else◌, Bytes, codes, arith, append-nil,
}
use ovpn_manager.Prelude.Int.{ℤ, pos, is_pos}
use ovpn_manager.Certs.X509.{Openssl}
use ovpn_manager.Schema.{VpnConfig}
use ovpn_manager.Requests.{Params, error, ok, number_of, not_started, not_stopped}
use ovpn_manager.Authorities.Rows.{find_config}
use ovpn_manager.Monitor.{is_running, is_alive}
use ovpn_manager.Process.{get_openvpn_pid, stop_openvpn, start_openvpn, child, running}
use ovpn_manager.Process.Stop.{stop_openvpn_lem}
use ovpn_manager.Process.Restart.{start_openvpn-success, start_openvpn-is_alive}
use ovpn_manager.Generate.{conf_text, generate_openvpn_config}
use ovpn_manager.Generate.Shared.{generate_openvpn_config-conf_text}
use ovpn_manager.Server.{
  Answers, finish_apply, finish_stop, start_for, stop_for, generate_by, handle_apply_config,
  handle_stop_config,
}
use ovpn_manager.Server.State.{Daemon, applied, halted}
use ovpn_manager.Server.Recorded.{
  finish_apply_cases, finish_stop_cases, registry-recorded, files-recorded, row-recorded,
  registry-logged, tables-logged, signals-logged,
}

-- The row of a configuration with a status, if the UPDATE is accepted.
abbrev pub with_status : Bool → Bytes → VpnConfig → VpnConfig
with_status updated s c = record c { status = if updated then s else c.status }

module _ (o : Openssl) (inet_aton : Bytes → Option ℕ) where
  apply_cases :
      (a : Answers o) (k : Bytes) (params : Params) (z : ℤ) (d : Daemon)
      → number_of (params (codes "config_id")) ≡ some z
      → handle_apply_config o inet_aton a k params d
        ≡ finish_apply a.updated a.logged z (start_for o inet_aton a.start a.files k z d)
  unfolding handle_apply_config finish_apply
  apply_cases a k params z d given = rw (given, handle_apply_config) refl

  start_for-success :
      (a : Answers o) (k : Bytes) (id : ℕ) (d : Daemon)
      → ((start_for o inet_aton a.start a.files k (pos id) d).1 ≡ true) ↔ (
          (a.start.executable ≡ true)
          × ((generate_openvpn_config o inet_aton a.files k id d.tables d.files).1 ≡ true)
          × (a.start.fork ≡ child)
          × (a.start.wait ≡ running))
  unfolding start_for generate_by
  start_for-success a k id d = start_openvpn-success _ id d.registry

  start_for-files :
      (a : Answers o) (k : Bytes) (id : ℕ) (d : Daemon)
      → a.start.executable ≡ true
      → (start_for o inet_aton a.start a.files k (pos id) d).0.files
        ≡ (generate_openvpn_config o inet_aton a.files k id d.tables d.files).0
  unfolding start_for generate_by
  start_for-files a k id d e = ground arith

  start_for-tables :
      (a : Answers o) (k : Bytes) (z : ℤ) (d : Daemon)
      → (start_for o inet_aton a.start a.files k z d).0.tables ≡ d.tables
  unfolding start_for
  start_for-tables a k z d = refl

  start_for-is_alive :
      (a : Answers o) (k : Bytes) (id : ℕ) (d : Daemon)
      → (start_for o inet_aton a.start a.files k (pos id) d).1 ≡ true
      → (stop_openvpn a.start.stop id d.registry).success ≡ true
      → a.start.created ≡ true
      → is_alive id (start_for o inet_aton a.start a.files k (pos id) d).0.registry.monitors ≡ true
  unfolding start_for generate_by
  start_for-is_alive a k id d started stopped created =
      (start_openvpn-is_alive _ id d.registry started stopped created).0

  -- When apply_config replies ok for a configuration, its file holds the configuration's text, its
  -- status is 'running' if the UPDATE was accepted, and every other row of vpn_config is as before.
  -- A thread watches it, if the old process could be stopped and the thread created.
  pub handle_apply_config-ok :
      (a : Answers o) (k : Bytes) (params : Params) (id : ℕ) (c : VpnConfig) (d : Daemon)
      → number_of (params (codes "config_id")) ≡ some (pos id)
      → find_config id d.tables.configs ≡ some c
      → (handle_apply_config o inet_aton a k params d).1 ≡ ok
      → let after = (handle_apply_config o inet_aton a k params d).0 in
        (after.files.conf id ≡ some (conf_text o inet_aton a.files id c))
        × ((j : ℕ)
            → find_config j after.tables.configs ≡ (
                if j == id
                then some (with_status a.updated (codes "running") c)
                else find_config j d.tables.configs))
        × ((stop_openvpn a.start.stop id d.registry).success ≡ true
            → a.start.created ≡ true
            → is_alive id after.registry.monitors ≡ true)
  unfolding start_for
  handle_apply_config-ok a k params id c d given found replied =
      let x = start_for o inet_aton a.start a.files k (pos id) d in
      elim (finish_apply_cases a.updated a.logged (pos id) x) [
        | inl (started, e) ↦
            let made = (start_for-success a k id d).0 started in
            let lem =
              generate_openvpn_config-conf_text o inet_aton a.files k id d.tables d.files c id
                found in
            rw (apply_cases a k params (pos id) d given, e)
              (
                ap (λ f. f.conf id)
                      (files-recorded a.updated a.logged id (codes "running") (applied (pos id)) x.0
                        ∙ start_for-files a k id d made.0)
                    ∙ ground (arith, lem, made),
                λ j.
                    row-recorded a.updated a.logged id (codes "running") (applied (pos id)) x.0 j c
                      found,
                λ stopped created.
                    ap (λ r. is_alive id r.monitors)
                      (registry-recorded a.updated a.logged id (codes "running") (applied (pos id))
                        x.0)
                    ∙ start_for-is_alive a k id d started stopped created,
              )
        | inr (failed, e) ↦ cc (apply_cases a k params (pos id) d given)
      ]

  stop_cases :
      (a : Answers o) (params : Params) (z : ℤ) (d : Daemon)
      → number_of (params (codes "config_id")) ≡ some z
      → handle_stop_config o inet_aton a params d
        ≡ finish_stop a.updated a.logged z (stop_for a.stop z d)
  unfolding handle_stop_config finish_stop
  stop_cases a params z d given = rw (given, handle_stop_config) refl

  -- stop_config for a configuration either replies ok: its status is 'stopped' if the UPDATE was
  -- accepted, its monitor is off, and every other row and monitor is as before. Or it replies an
  -- error: the pid file holds a positive number to which SIGTERM cannot be sent, and the rows, the
  -- monitors and the signals are as before.
  pub handle_stop_config_lem :
      (a : Answers o) (params : Params) (id : ℕ) (c : VpnConfig) (d : Daemon)
      → number_of (params (codes "config_id")) ≡ some (pos id)
      → find_config id d.tables.configs ≡ some c
      → let (after, reply) = handle_stop_config o inet_aton a params d in
        ((reply ≡ ok)
          × ((j : ℕ)
              → find_config j after.tables.configs ≡ (
                  if j == id
                  then some (with_status a.updated (codes "stopped") c)
                  else find_config j d.tables.configs))
          × ((j : ℕ)
              → is_running j after.registry.monitors
                ≡ (if j == id then false else is_running j d.registry.monitors)))
        ⊎ ((reply ≡ error not_stopped)
            × (is_pos (get_openvpn_pid a.stop.pid_file) ≡ true)
            × (a.stop.term_sent ≡ false)
            × (after.tables ≡ d.tables)
            × (after.registry ≡ d.registry)
            × (after.signals ≡ d.signals))
  unfolding stop_for
  handle_stop_config_lem a params id c d given found =
      let x = stop_for a.stop (pos id) d in
      let out = stop_openvpn_lem a.stop id d.registry in
      elim (finish_stop_cases a.updated a.logged (pos id) x) [
        | inl (stopped, e) ↦ (elim out [
          | inl (_, off) ↦
              rw (stop_cases a params (pos id) d given, e)
                (inl (
                  refl,
                  λ j.
                      row-recorded a.updated a.logged id (codes "stopped") (halted (pos id)) x.0 j c
                        found,
                  λ j.
                      ap (λ r. is_running j r.monitors)
                        (registry-recorded a.updated a.logged id (codes "stopped") (halted (pos id))
                          x.0)
                      ∙ off j,
                ))
          | inr (failed, _, _, _, _) ↦ cc
        ])
        | inr (refused, e) ↦ (elim out [
          | inl (done, _) ↦ cc
          | inr (_, positive, unsent, silent, same) ↦
              rw (stop_cases a params (pos id) d given, e)
                (inr (
                  refl,
                  positive,
                  unsent,
                  tables-logged a.logged _ x.0,
                  registry-logged a.logged _ x.0 ∙ same,
                  signals-logged a.logged _ x.0
                      ∙ ap (λ l. d.signals ++ l) silent
                      ∙ append-nil d.signals,
                ))
        ])
      ]

  start_for_failed :
      (a : Answers o) (k : Bytes) (id : ℕ) (d : Daemon)
      → (start_for o inet_aton a.start a.files k (pos id) d).1 ≡ false
      → a.start.executable ≡ true
      → (start_for o inet_aton a.start a.files k (pos id) d).0.registry
        ≡ (stop_openvpn a.start.stop id d.registry).registry
  unfolding start_for generate_by start_openvpn
  start_for_failed a k id d failed can = ground arith

  -- When the binary can be executed and apply_config replies an error after the old process was
  -- stopped, the configuration's monitor is off and every row of the tables is as before.
  pub handle_apply_config_failed :
      (a : Answers o) (k : Bytes) (params : Params) (id : ℕ) (d : Daemon)
      → number_of (params (codes "config_id")) ≡ some (pos id)
      → (handle_apply_config o inet_aton a k params d).1 ≡ error not_started
      → a.start.executable ≡ true
      → (stop_openvpn a.start.stop id d.registry).success ≡ true
      → let after = (handle_apply_config o inet_aton a k params d).0 in
        (is_running id after.registry.monitors ≡ false) × (after.tables ≡ d.tables)
  unfolding start_for
  handle_apply_config_failed a k params id d given replied can stopped =
      let x = start_for o inet_aton a.start a.files k (pos id) d in
      elim (finish_apply_cases a.updated a.logged (pos id) x) [
        | inl (started, e) ↦ cc (apply_cases a k params (pos id) d given)
        | inr (failed, e) ↦ (elim (stop_openvpn_lem a.start.stop id d.registry) [
          | inl (_, off) ↦
              rw (apply_cases a k params (pos id) d given, e)
                (
                  ap (λ r. is_running id r.monitors)
                        (registry-logged a.logged _ x.0 ∙ start_for_failed a k id d failed can)
                      ∙ off id
                      ∙ ground arith,
                  tables-logged a.logged _ x.0,
                )
          | inr (refused, _, _, _, _) ↦ cc
        ])
      ]
