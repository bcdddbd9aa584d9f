-- ===== src/Server.antt =====
-- master/socket_server.c: the handlers of this file and dispatch_request, over the state of the
-- whole daemon. A request is handled as one step.
pub mod Sound
pub mod Recorded
pub mod State
pub mod Listen
pub mod Settled
pub mod Actions
pub mod Frames
pub mod Invariant
pub mod Apply
use ovpn_manager.Prelude.{
  ℕ, ◌-◌, ◌^◌, Bool, true, false, List, [], ◌∷◌, ◌++◌, Option, none, some, ◌==◌, if◌then◌else◌,
  Bytes, codes,
}
use ovpn_manager.Prelude.Int.{ℤ, pos, negsuc}
use ovpn_manager.Certs.X509.{Openssl}
use ovpn_manager.Schema.{VpnConfig, Tables}
use ovpn_manager.Requests.{
  Json, Params, string_of, number_of, Message, Reply, error, ok, ok_data, ok_profile,
  missing_parameters, no_action, unknown_action, not_started, not_stopped, not_kicked, not_updated,
}
use ovpn_manager.Monitor.{Registry, thread_exit}
use ovpn_manager.Monitor.Kick.{kick_client}
use ovpn_manager.Monitor.Kick
use ovpn_manager.Process.{Signal, StopAnswers, StartAnswers, stop_openvpn, start_openvpn}
use ovpn_manager.Generate
use ovpn_manager.Generate.{Files, generate_openvpn_config}
use ovpn_manager.Authorities
use ovpn_manager.Authorities.{
  handle_generate_ca_cert, handle_sign_server_cert, handle_delete_ca_cert, handle_get_ca_cert,
}
use ovpn_manager.Clients.{
  Accepted, handle_get_client_config, handle_revoke_client_cert, handle_change_client_password,
}
use ovpn_manager.Clients.Issue
use ovpn_manager.Clients.Issue.{string_or, handle_gen_client_cert}
use ovpn_manager.Server.Actions.{
  Action, ping, status, apply_config, kick, stop_config, gen_client_cert, get_client_config,
  change_client_password, revoke_client_cert, generate_ca_cert, sign_server_cert, get_ca_cert,
  delete_ca_cert, update_admin_login, action_of,
}
use ovpn_manager.Server.State.{
  SystemEvent, applied, not_applied, halted, not_halted, issued, Daemon, word_of, set_status,
  update_status, log_system_event,
}

-- What the system, OpenSSL and the database answer to one request. `updated`: the UPDATE of
-- vpn_config or vpn_admins is accepted; `logged`: the INSERT of log_system_event is.
pub record Answers (o : Openssl) : Type 0 where
  pub start : StartAnswers
  pub stop : StopAnswers
  pub files : Generate.Answers
  pub kick : Kick.Answers
  pub issue : Issue.Answers o
  pub clients : Accepted
  pub authority : Authorities.Answers o
  pub updated : Bool
  pub logged : Bool

-- `req`: the members `action`, and those of `params`.
pub record Request : Type 0 where
  pub action : Option Json
  pub params : Params

unfoldable pub finish_apply : Bool → Bool → ℤ → Daemon × Bool → Daemon × Reply
unfolding update_status log_system_event
finish_apply updated logged z (d, true) =
    (log_system_event logged (applied z) (update_status updated z (codes "running") d), ok)
finish_apply updated logged z (d, false) =
    (log_system_event logged (not_applied z) d, error not_started)

unfoldable pub finish_stop : Bool → Bool → ℤ → Daemon × Bool → Daemon × Reply
unfolding update_status log_system_event
finish_stop updated logged z (d, true) =
    (log_system_event logged (halted z) (update_status updated z (codes "stopped") d), ok)
finish_stop updated logged z (d, false) =
    (log_system_event logged (not_halted z) d, error not_stopped)

unfoldable pub stop_for : StopAnswers → ℤ → Daemon → Daemon × Bool
stop_for a z d =
    let out = stop_openvpn a (word_of z) d.registry in
    (record d { registry = out.registry; signals = d.signals ++ out.signals }, out.success)

-- What handle_gen_client_cert writes to system_logs.
unfoldable pub log_issue : Bool → Params → Reply → Daemon → Daemon
unfolding log_system_event
log_issue logged params (ok_profile pid sent) d =
    log_system_event logged (issued (string_or [] (string_of (params (codes "username")))) pid) d
log_issue logged params _ d = d

-- The tables and the reply of a handler for the tables.
abbrev pub with_tables : Daemon → Tables × Reply → Daemon × Reply
with_tables d r = (record d { tables = r.0 }, r.1)

abbrev pub defined : Daemon × Reply → Daemon × Option Reply
defined r = (r.0, some r.1)

unfoldable pub handle_update_admin_login : Bool → Params → Daemon → Daemon × Reply
handle_update_admin_login updated params d = elim (number_of (params (codes "admin_id"))) [
  | none ↦ (d, error missing_parameters)
  | some z ↦
      if updated then (record d { logins = d.logins ++ z ∷ [] }, ok) else (d, error not_updated)
]

abbrev pub with_id : ℤ → List Bytes → List (ℤ × Bytes)
with_id z [] = []
with_id z (c ∷ cs) = (z, c) ∷ with_id z cs

abbrev pub finish_kick : ℤ → Daemon → List Bytes × Bool → Daemon × Reply
finish_kick z d (sent, true) = (record d { management = d.management ++ with_id z sent }, ok)
finish_kick z d (sent, false) =
    (record d { management = d.management ++ with_id z sent }, error not_kicked)

unfoldable pub kick_with : Kick.Answers → Option ℤ → Option Bytes → Daemon → Daemon × Reply
unfolding kick_client
kick_with a (some z) (some target) d = finish_kick z d (kick_client a target)
kick_with a _ _ d = (d, error missing_parameters)

unfoldable pub handle_kick_client : Kick.Answers → Params → Daemon → Daemon × Reply
unfolding kick_with
handle_kick_client a params d =
    kick_with a (number_of (params (codes "config_id"))) (string_of (params (codes "target"))) d

-- A request, or a monitor thread that ends by itself: it sets the status where the OpenVPN process
-- is gone and the UPDATE is accepted.
pub data Event (o : Openssl) : Type 0 where
  request : Answers o → Request → Event o
  thread_ends : Bool → ℤ → Event o

module _ (o : Openssl) (inet_aton : Bytes → Option ℕ) where
  -- No row has a negative id.
  unfoldable pub generate_by : Generate.Answers → Bytes → ℤ → Tables → Files → Files × Bool
  generate_by a encryption_key (pos id) db f =
      generate_openvpn_config o inet_aton a encryption_key id db f
  generate_by a encryption_key (negsuc n) db f = (f, false)

  -- start_openvpn with the call of generate_openvpn_config in it.
  unfoldable pub start_for : StartAnswers → Generate.Answers → Bytes → ℤ → Daemon → Daemon × Bool
  unfolding generate_by
  start_for a g encryption_key z d =
      let made = generate_by g encryption_key z d.tables d.files in
      let out = start_openvpn (record a { generated = made.1 }) (word_of z) d.registry in
      (
        record d {
          registry = out.registry;
          signals = d.signals ++ out.signals;
          files = if a.executable then made.0 else d.files;
        },
        out.success,
      )

  unfoldable pub handle_apply_config : Answers o → Bytes → Params → Daemon → Daemon × Reply
  unfolding start_for finish_apply
  handle_apply_config a encryption_key params d = elim (number_of (params (codes "config_id"))) [
    | none ↦ (d, error missing_parameters)
    | some z ↦ finish_apply a.updated a.logged z (start_for a.start a.files encryption_key z d)
  ]

  unfoldable pub handle_stop_config : Answers o → Params → Daemon → Daemon × Reply
  unfolding stop_for finish_stop
  handle_stop_config a params d = elim (number_of (params (codes "config_id"))) [
    | none ↦ (d, error missing_parameters)
    | some z ↦ finish_stop a.updated a.logged z (stop_for a.stop z d)
  ]

  unfoldable pub issue_for : Answers o → Bytes → Params → Daemon → Daemon × Reply
  unfolding log_issue
  issue_for a encryption_key params d =
      let after = handle_gen_client_cert o a.issue encryption_key params d.tables in
      (log_issue a.logged params after.1 (record d { tables = after.0 }), after.1)

  unfoldable pub call : Action → Answers o → Bytes → Params → Daemon → Daemon × Option Reply
  unfolding handle_apply_config handle_stop_config handle_kick_client handle_update_admin_login
      issue_for
  call ping a k params d = (d, some (ok_data (codes "pong")))
  call status a k params d = (d, some (ok_data (codes "running")))
  call apply_config a k params d = defined (handle_apply_config a k params d)
  call kick a k params d = defined (handle_kick_client a.kick params d)
  call stop_config a k params d = defined (handle_stop_config a params d)
  call gen_client_cert a k params d = defined (issue_for a k params d)
  call get_client_config a k params d =
      defined (with_tables d (handle_get_client_config o a.clients k params d.tables))
  call change_client_password a k params d = (d, some (handle_change_client_password params))
  call revoke_client_cert a k params d =
      defined (with_tables d (handle_revoke_client_cert o a.clients params d.tables))
  call generate_ca_cert a k params d =
      defined (with_tables d (handle_generate_ca_cert o a.authority k params d.tables))
  call sign_server_cert a k params d =
      defined (with_tables d (handle_sign_server_cert o a.authority k params d.tables))
  call get_ca_cert a k params d = (d, handle_get_ca_cert o a.authority d.tables)
  call delete_ca_cert a k params d =
      defined (with_tables d (handle_delete_ca_cert o a.authority k params d.tables))
  call update_admin_login a k params d = defined (handle_update_admin_login a.updated params d)

  -- `none` is a reply that is not defined.
  unfoldable pub dispatch_request : Answers o → Bytes → Request → Daemon → Daemon × Option Reply
  unfolding call
  dispatch_request a encryption_key req d = elim (string_of req.action) [
    | none ↦ (d, some (error no_action))
    | some name ↦ elim (action_of name) [
      | none ↦ (d, some (error unknown_action))
      | some act ↦ call act a encryption_key req.params d
    ]
  ]

  unfoldable pub happen : Bytes → Event o → Daemon → Daemon
  unfolding dispatch_request
  happen encryption_key (request a req) d = (dispatch_request a encryption_key req d).0
  happen encryption_key (thread_ends updated z) d =
      update_status updated z (codes "stopped")
        (record d { registry = thread_exit (word_of z) d.registry })

  unfoldable pub run : Bytes → List (Event o) → Daemon → Daemon
  run encryption_key [] d = d
  run encryption_key (e ∷ es) d = run encryption_key es (happen encryption_key e d)
