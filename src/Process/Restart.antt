-- ===== src/Process/Restart.antt =====
-- `start_openvpn`: when a started configuration is watched, and when it is not.
use ovpn_manager.Prelude.{◌≡◌, ℕ, true, false, arith, ◌==◌, if◌then◌else◌, inl, inr, ◌↔◌}
use ovpn_manager.Prelude.Int.{is_pos}
use ovpn_manager.Monitor.{Registry, is_running, is_alive, monitor_start}
use ovpn_manager.Monitor.Calls.{is_running-monitor_start, is_alive-monitor_start}
use ovpn_manager.Process.{
  StartAnswers, StopAnswers, get_openvpn_pid, stop_openvpn, child, running, start_openvpn,
}
use ovpn_manager.Process.Stop.{stop_openvpn_lem}

-- `start_openvpn` returns 0 if and only if the binary can be executed, the configuration was written,
-- the fork succeeded and the process runs half a second later.
pub start_openvpn-success :
    (a : StartAnswers) (id : ℕ) (r : Registry)
    → ((start_openvpn a id r).success ≡ true)
      ↔ ((a.executable ≡ true) × (a.generated ≡ true) × (a.fork ≡ child) × (a.wait ≡ running))
unfolding start_openvpn
start_openvpn-success a id r = ground arith

-- A start that returns 0 has called `monitor_start` on what the stop left.
start_openvpn-registry :
    (a : StartAnswers) (id : ℕ) (r : Registry)
    → (start_openvpn a id r).success ≡ true
    → (start_openvpn a id r).registry
      ≡ (monitor_start a.created id (stop_openvpn a.stop id r).registry).0
unfolding start_openvpn
start_openvpn-registry a id r ok = ground arith

-- When `start_openvpn` returns 0, the old process could be stopped and the thread created, then a
-- thread watches the configuration, its `running` is set, and every other one is as before.
pub start_openvpn-is_alive :
    (a : StartAnswers) (id : ℕ) (r : Registry)
    → (start_openvpn a id r).success ≡ true
    → (stop_openvpn a.stop id r).success ≡ true
    → a.created ≡ true
    → (is_alive id (start_openvpn a id r).registry.monitors ≡ true)
      × ((j : ℕ)
          → is_running j (start_openvpn a id r).registry.monitors
            ≡ (if j == id then true else is_running j r.monitors))
start_openvpn-is_alive a id r ok stopped created = elim (stop_openvpn_lem a.stop id r) [
  | inl (_, off) ↦
      let r' = (stop_openvpn a.stop id r).registry in
      rw (start_openvpn-registry a id r ok) (
        ground (arith, off id, is_alive-monitor_start a.created id id r'),
        λ j. ground (arith, off id, off j, is_running-monitor_start a.created id j r'),
      )
  | inr (failed, _, _, _, _) ↦ cc
]

stop_openvpn-refused :
    (a : StopAnswers) (id : ℕ) (r : Registry)
    → is_pos (get_openvpn_pid a.pid_file) ≡ true
    → a.term_sent ≡ false
    → (stop_openvpn a id r).registry ≡ r
unfolding stop_openvpn
stop_openvpn-refused a id r stale refused = ground arith

-- A pid file that is left behind by a process that is gone: SIGTERM cannot be sent, so the stop
-- inside the start fails and leaves `running` set. Where the old thread has ended by itself, the
-- binary can be executed, the configuration is written, the fork succeeds and the new process runs
-- half a second later, the start returns 0 all the same, and no thread watches the new process.
pub start_openvpn_unwatched :
    (a : StartAnswers) (id : ℕ) (r : Registry)
    → is_pos (get_openvpn_pid a.stop.pid_file) ≡ true
    → a.stop.term_sent ≡ false
    → is_running id r.monitors ≡ true
    → is_alive id r.monitors ≡ false
    → a.executable ≡ true
    → a.generated ≡ true
    → a.fork ≡ child
    → a.wait ≡ running
    → ((start_openvpn a id r).success ≡ true)
      × (is_running id (start_openvpn a id r).registry.monitors ≡ true)
      × (is_alive id (start_openvpn a id r).registry.monitors ≡ false)
start_openvpn_unwatched a id r stale refused on dead executable generated fork wait =
    let ok = (start_openvpn-success a id r).1 (executable, generated, fork, wait) in
    rw (start_openvpn-registry a id r ok, stop_openvpn-refused a.stop id r stale refused)
      (
        ok,
        ground (arith, is_running-monitor_start a.created id id r),
        ground (arith, is_alive-monitor_start a.created id id r),
      )
