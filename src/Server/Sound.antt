-- ===== src/Server/Sound.antt =====
-- That the parts of a request keep the daemon consistent.
use ovpn_manager.Prelude.{
  ℕ, ◌≡◌, ◌⊎◌, inl, inr, Bool, true, false, List, Option, none, some, Bytes, codes, arith,
  Option-cases, Bool-cases,
}
use ovpn_manager.Prelude.Int.{ℤ, pos, negsuc}
use ovpn_manager.Certs.X509.{Openssl}
use ovpn_manager.Schema.{Tables}
use ovpn_manager.Requests.{Params, Reply, error, ok, ok_profile, ok_fingerprint, ok_data, number_of}
use ovpn_manager.Monitor.{Registry, monitor_start}
use ovpn_manager.Monitor.Kick
use ovpn_manager.Monitor.Kick.{kick_client}
use ovpn_manager.Monitor.Tracking
use ovpn_manager.Monitor.Tracking.{monitor_start-IsSound, monitor_stop-IsSound, thread_exit-IsSound}
use ovpn_manager.Process.{StopAnswers, StartAnswers, stop_openvpn, start_openvpn}
use ovpn_manager.Process.Stop.{stop_openvpn-registry}
use ovpn_manager.Authorities
use ovpn_manager.Authorities.Soundness
use ovpn_manager.Authorities.Soundness.{is_checked, handle-IsSound}
use ovpn_manager.Clients.Keys.{IsKeyed, IsStep}
use ovpn_manager.Server.{
  finish_apply, finish_stop, finish_kick, kick_with, handle_update_admin_login, log_issue,
}
use ovpn_manager.Server.State.{Daemon, update_status, log_system_event, SystemEvent}
use ovpn_manager.Server.Frames.{set_status-IsSound, step-IsSound, handle-IsKeyed}

pub stop_openvpn-IsSound :
    (a : StopAnswers) (id : ℕ) (r : Registry)
    → Tracking.IsSound r
    → Tracking.IsSound (stop_openvpn a id r).registry
stop_openvpn-IsSound a id r s = elim (stop_openvpn-registry a id r) [
  | inl e ↦ rw e (monitor_stop-IsSound id r s)
  | inr e ↦ rw e s
]

-- The registry after a start is the old one, or that after the stop, or that after the stop and
-- the start of the monitor.
start_openvpn-registry_cases :
    (a : StartAnswers) (id : ℕ) (r : Registry)
    → ((start_openvpn a id r).registry ≡ r)
      ⊎ (((start_openvpn a id r).registry ≡ (stop_openvpn a.stop id r).registry)
          ⊎ ((start_openvpn a id r).registry
              ≡ (monitor_start a.created id (stop_openvpn a.stop id r).registry).0))
unfolding start_openvpn
start_openvpn-registry_cases a id r = ground arith

pub start_openvpn-IsSound :
    (a : StartAnswers) (id : ℕ) (r : Registry)
    → Tracking.IsSound r
    → Tracking.IsSound (start_openvpn a id r).registry
start_openvpn-IsSound a id r s = elim (start_openvpn-registry_cases a id r) [
  | inl e ↦ rw e s
  | inr (inl e) ↦ rw e (stop_openvpn-IsSound a.stop id r s)
  | inr (inr e) ↦ rw e (monitor_start-IsSound a.created id _ (stop_openvpn-IsSound a.stop id r s))
]

module _ (o : Openssl) where
  pub record IsConsistent (db : Tables) : Type 0 where
    pub authorities : Soundness.IsSound o db
    pub clients : IsKeyed db

  -- The monitors' tables agree, each configuration's CA is there, and the unique keys of the tables
  -- are unique.
  pub record IsSound (d : Daemon) : Type 0 where
    pub registry : Tracking.IsSound d.registry
    pub tables : IsConsistent d.tables

  pub step-IsConsistent :
      (db after : Tables) → IsStep db after → IsConsistent db → IsConsistent after
  step-IsConsistent db after s h = record {
    authorities = step-IsSound o db after s h.authorities;
    clients = s.keyed;
  }

  pub handle-IsConsistent :
      (k : Bytes) (r : Authorities.Request o) (db : Tables)
      → is_checked o r ≡ true
      → IsConsistent db
      → IsConsistent (Authorities.handle o k r db).0
  handle-IsConsistent k r db c h = record {
    authorities = handle-IsSound o k r db c h.authorities;
    clients = handle-IsKeyed o k r db h.clients;
  }

  pub update_status-IsSound :
      (b : Bool) (z : ℤ) (s : Bytes) (d : Daemon) → IsSound d → IsSound (update_status b z s d)
  unfolding update_status
  update_status-IsSound true (pos id) s d h = record {
    registry = h.registry;
    tables = record {
      authorities = set_status-IsSound o id s d.tables h.tables.authorities;
      clients = record { names = h.tables.clients.names; pairs = h.tables.clients.pairs };
    };
  }
  update_status-IsSound true (negsuc n) s d h = h
  update_status-IsSound false z s d h = h

  pub log-IsSound :
      (b : Bool) (e : SystemEvent) (d : Daemon) → IsSound d → IsSound (log_system_event b e d)
  unfolding log_system_event
  log-IsSound true e d h = record { registry = h.registry; tables = h.tables }
  log-IsSound false e d h = h

  pub with_tables-IsSound :
      (d : Daemon) (db : Tables) → IsSound d → IsConsistent db → IsSound (record d { tables = db })
  with_tables-IsSound d db h c = record { registry = h.registry; tables = c }

  pub finish_apply-IsSound :
      (updated logged : Bool) (z : ℤ) (d : Daemon) (b : Bool)
      → IsSound d
      → IsSound (finish_apply updated logged z (d, b)).0
  unfolding finish_apply
  finish_apply-IsSound updated logged z d true h =
      log-IsSound logged _ _ (update_status-IsSound updated z (codes "running") d h)
  finish_apply-IsSound updated logged z d false h = log-IsSound logged _ d h

  pub finish_stop-IsSound :
      (updated logged : Bool) (z : ℤ) (d : Daemon) (b : Bool)
      → IsSound d
      → IsSound (finish_stop updated logged z (d, b)).0
  unfolding finish_stop
  finish_stop-IsSound updated logged z d true h =
      log-IsSound logged _ _ (update_status-IsSound updated z (codes "stopped") d h)
  finish_stop-IsSound updated logged z d false h = log-IsSound logged _ d h

  pub log_issue-IsSound :
      (b : Bool) (params : Params) (r : Reply) (d : Daemon)
      → IsSound d
      → IsSound (log_issue b params r d)
  unfolding log_issue
  log_issue-IsSound b params (ok_profile pid sent) d h = log-IsSound b _ d h
  log_issue-IsSound b params (error m) d h = h
  log_issue-IsSound b params ok d h = h
  log_issue-IsSound b params (ok_fingerprint s) d h = h
  log_issue-IsSound b params (ok_data s) d h = h

  pub finish_kick-IsSound :
      (z : ℤ) (d : Daemon) (r : List Bytes × Bool) → IsSound d → IsSound (finish_kick z d r).0
  finish_kick-IsSound z d (sent, true) h = record { registry = h.registry; tables = h.tables }
  finish_kick-IsSound z d (sent, false) h = record { registry = h.registry; tables = h.tables }

  pub kick-IsSound :
      (a : Kick.Answers) (z : Option ℤ) (t : Option Bytes) (d : Daemon)
      → IsSound d
      → IsSound (kick_with a z t d).0
  unfolding kick_with
  kick-IsSound a none t d h = h
  kick-IsSound a (some z) none d h = h
  kick-IsSound a (some z) (some t) d h = finish_kick-IsSound z d (kick_client a t) h

  pub login-IsSound :
      (b : Bool) (params : Params) (d : Daemon)
      → IsSound d
      → IsSound (handle_update_admin_login b params d).0
  unfolding handle_update_admin_login
  login-IsSound b params d h = elim (Option-cases (number_of (params (codes "admin_id")))) [
    | inl e ↦ rw (e, handle_update_admin_login) h
    | inr (z, e) ↦ (elim (Bool-cases b) [
      | inl yes' ↦
          rw (e, handle_update_admin_login, yes')
            (record { registry = h.registry; tables = h.tables })
      | inr no' ↦ rw (e, handle_update_admin_login, no') h
    ])
  ]
