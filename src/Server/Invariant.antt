-- ===== src/Server/Invariant.antt =====
-- What holds of the daemon after any history.
use ovpn_manager.Prelude.{
  ℕ, ◌≡◌, refl, inl, inr, true, List, [], ◌∷◌, Option, Bytes, codes, All, Option-cases,
}
use ovpn_manager.Certs.X509.{Openssl}
use ovpn_manager.Requests.{Params, string_of, number_of}
use ovpn_manager.Monitor.Tracking.{thread_exit-IsSound}
use ovpn_manager.Authorities
use ovpn_manager.Authorities.Soundness.{is_checked}
use ovpn_manager.Clients.Keys.{
  gen_client_cert-IsStep, revoke_client_cert-IsStep, get_client_config-IsStep,
}
use ovpn_manager.Server.{
  Answers, Request, Event, request, thread_ends, handle_stop_config, handle_apply_config,
  handle_kick_client, issue_for, start_for, stop_for, call, dispatch_request, happen, run,
}
use ovpn_manager.Server.State.{Daemon, word_of}
use ovpn_manager.Server.Actions.{
  Action, ping, status, apply_config, kick, stop_config, gen_client_cert, get_client_config,
  change_client_password, revoke_client_cert, generate_ca_cert, sign_server_cert, get_ca_cert,
  delete_ca_cert, update_admin_login, action_of,
}
use ovpn_manager.Server.Sound.{
  stop_openvpn-IsSound, start_openvpn-IsSound, IsSound, step-IsConsistent, handle-IsConsistent,
  update_status-IsSound, with_tables-IsSound, finish_apply-IsSound, finish_stop-IsSound,
  log_issue-IsSound, kick-IsSound, login-IsSound,
}

module _ (o : Openssl) (inet_aton : Bytes → Option ℕ) where
  stop-IsSound :
      (a : Answers o) (params : Params) (d : Daemon)
      → IsSound o d
      → IsSound o (handle_stop_config o inet_aton a params d).0
  unfolding handle_stop_config stop_for
  stop-IsSound a params d h = elim (Option-cases (number_of (params (codes "config_id")))) [
    | inl e ↦ rw (e, handle_stop_config) h
    | inr (z, e) ↦
        rw (e, handle_stop_config)
          (finish_stop-IsSound o a.updated a.logged z _ _ (record {
            registry = stop_openvpn-IsSound a.stop (word_of z) d.registry h.registry;
            tables = h.tables;
          }))
  ]

  apply-IsSound :
      (a : Answers o) (k : Bytes) (params : Params) (d : Daemon)
      → IsSound o d
      → IsSound o (handle_apply_config o inet_aton a k params d).0
  unfolding handle_apply_config start_for
  apply-IsSound a k params d h = elim (Option-cases (number_of (params (codes "config_id")))) [
    | inl e ↦ rw (e, handle_apply_config) h
    | inr (z, e) ↦
        rw (e, handle_apply_config)
          (finish_apply-IsSound o a.updated a.logged z _ _ (record {
            registry = start_openvpn-IsSound _ (word_of z) d.registry h.registry;
            tables = h.tables;
          }))
  ]

  call-IsSound :
      (act : Action) (a : Answers o) (k : Bytes) (params : Params) (d : Daemon)
      → a.authority.referenced ≡ true
      → IsSound o d
      → IsSound o (call o inet_aton act a k params d).0
  unfolding call Authorities.handle is_checked issue_for handle_kick_client
  call-IsSound ping a k params d c h = h
  call-IsSound status a k params d c h = h
  call-IsSound apply_config a k params d c h = apply-IsSound a k params d h
  call-IsSound kick a k params d c h = kick-IsSound o a.kick _ _ d h
  call-IsSound stop_config a k params d c h = stop-IsSound a params d h
  call-IsSound gen_client_cert a k params d c h = log_issue-IsSound o a.logged params _ _ (
      with_tables-IsSound o d _ h (
        step-IsConsistent o d.tables _
          (gen_client_cert-IsStep o a.issue k params d.tables h.tables.clients) h.tables))
  call-IsSound get_client_config a k params d c h = with_tables-IsSound o d _ h (
      step-IsConsistent o d.tables _
        (get_client_config-IsStep o a.clients k params d.tables h.tables.clients) h.tables)
  call-IsSound change_client_password a k params d c h = h
  call-IsSound revoke_client_cert a k params d c h = with_tables-IsSound o d _ h (
      step-IsConsistent o d.tables _
        (revoke_client_cert-IsStep o a.clients params d.tables h.tables.clients) h.tables)
  call-IsSound generate_ca_cert a k params d c h =
      with_tables-IsSound o d _ h
        (handle-IsConsistent o k (Authorities.generate a.authority params) d.tables refl h.tables)
  call-IsSound sign_server_cert a k params d c h =
      with_tables-IsSound o d _ h
        (handle-IsConsistent o k (Authorities.sign a.authority params) d.tables refl h.tables)
  call-IsSound get_ca_cert a k params d c h = h
  call-IsSound delete_ca_cert a k params d c h =
      with_tables-IsSound o d _ h
        (handle-IsConsistent o k (Authorities.delete a.authority params) d.tables c h.tables)
  call-IsSound update_admin_login a k params d c h = login-IsSound o a.updated params d h

  dispatch_request-IsSound :
      (a : Answers o) (k : Bytes) (req : Request) (d : Daemon)
      → a.authority.referenced ≡ true
      → IsSound o d
      → IsSound o (dispatch_request o inet_aton a k req d).0
  unfolding dispatch_request
  dispatch_request-IsSound a k req d c h = elim (Option-cases (string_of req.action)) [
    | inl e ↦ rw (e, dispatch_request) h
    | inr (name, e) ↦
        rw (e, dispatch_request)
          (elim (Option-cases (action_of name)) [
            | inl e' ↦ rw (e', dispatch_request) h
            | inr (act, e') ↦ rw (e', dispatch_request) (call-IsSound act a k req.params d c h)
          ])
  ]

  -- The database answers the query for references of a request, if it makes one.
  abbrev pub IsAnswered : Event o → Type 0
  IsAnswered (request a req) = a.authority.referenced ≡ true
  IsAnswered (thread_ends updated z) = Unit

  -- No history of requests, whatever they ask for and whatever fails in them, and of monitor threads
  -- that end breaks the daemon's state, if the database answers every query for references.
  pub run-IsSound :
      (k : Bytes) (es : List (Event o)) (d : Daemon)
      → All IsAnswered es
      → IsSound o d
      → IsSound o (run o inet_aton k es d)
  unfolding run happen
  run-IsSound k [] d c h = h
  run-IsSound k (request a req ∷ es) d c h =
      run-IsSound k es _ c.1 (dispatch_request-IsSound a k req d c.0 h)
  run-IsSound k (thread_ends b z ∷ es) d c h = run-IsSound k es _ c.1 (
      update_status-IsSound o b z (codes "stopped") _ (record {
        registry = thread_exit-IsSound (word_of z) d.registry h.registry;
        tables = h.tables;
      }))
