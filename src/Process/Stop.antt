-- ===== src/Process/Stop.antt =====
-- What `stop_openvpn` does to the registry, and when it kills.
use ovpn_manager.Prelude.{
  ℕ, zero, suc, ◌+◌, ◌≤◌, ◌≡◌, refl, Bool, true, false, [], ◌∷◌, ◌==◌, if◌then◌else◌, ◌⊎◌, inl, inr,
  arith, Bool-cases, ltb, min,
}
use ovpn_manager.Prelude.Int.{pos, is_pos}
use ovpn_manager.Monitor.{Registry, is_running, monitor_stop}
use ovpn_manager.Monitor.Calls.{is_running-monitor_stop}
use ovpn_manager.Monitor.Tracking.{IsTracked, monitor_stop-IsTracked}
use ovpn_manager.Process.{
  holds, get_openvpn_pid, sigterm, sigkill, StopAnswers, wait_exit, kill_after, stop_openvpn,
}

-- When `stop_openvpn` returns 0 the monitor of the configuration is off and every other one is as
-- before. Otherwise the pid file holds a positive number to which SIGTERM cannot be sent, nothing
-- has been sent, and the registry is untouched.
pub stop_openvpn_lem :
    (a : StopAnswers) (id : ℕ) (r : Registry)
    → (((stop_openvpn a id r).success ≡ true)
        × ((j : ℕ)
            → is_running j (stop_openvpn a id r).registry.monitors
              ≡ (if j == id then false else is_running j r.monitors)))
      ⊎ (((stop_openvpn a id r).success ≡ false)
          × (is_pos (get_openvpn_pid a.pid_file) ≡ true)
          × (a.term_sent ≡ false)
          × ((stop_openvpn a id r).signals ≡ [])
          × ((stop_openvpn a id r).registry ≡ r))
unfolding stop_openvpn
stop_openvpn_lem a id r = elim (Bool-cases (is_pos (get_openvpn_pid a.pid_file))) [
  | inl positive ↦ (elim (Bool-cases a.term_sent) [
    | inl sent ↦ rw (positive, sent) (inl (refl, λ j. is_running-monitor_stop id j r))
    | inr refused ↦ rw (positive, refused) (inr (refl, refl, refl, refl, refl))
  ])
  | inr none_there ↦ rw none_there (inl (refl, λ j. is_running-monitor_stop id j r))
]

-- The registry after a stop is the old one or the one that `monitor_stop` gives.
pub stop_openvpn-registry :
    (a : StopAnswers) (id : ℕ) (r : Registry)
    → ((stop_openvpn a id r).registry ≡ monitor_stop id r) ⊎ ((stop_openvpn a id r).registry ≡ r)
unfolding stop_openvpn
stop_openvpn-registry a id r = ground arith

pub stop_openvpn-IsTracked :
    (a : StopAnswers) (id : ℕ) (r : Registry)
    → IsTracked r
    → IsTracked (stop_openvpn a id r).registry
stop_openvpn-IsTracked a id r t = elim (stop_openvpn-registry a id r) [
  | inl e ↦ rw e (monitor_stop-IsTracked id r t)
  | inr e ↦ rw e t
]

pub is_running-stop_openvpn-le :
    (a : StopAnswers) (id j : ℕ) (r : Registry)
    → is_running j r.monitors ≡ false
    → is_running j (stop_openvpn a id r).registry.monitors ≡ false
is_running-stop_openvpn-le a id j r h = elim (stop_openvpn-registry a id r) [
  | inl e ↦ rw e (ground (arith, is_running-monitor_stop id j r))
  | inr e ↦ rw e h
]

pub is_running-stop_openvpn_ne :
    (a : StopAnswers) (id j : ℕ) (r : Registry)
    → (j == id) ≡ false
    → is_running j (stop_openvpn a id r).registry.monitors ≡ is_running j r.monitors
is_running-stop_openvpn_ne a id j r h = elim (stop_openvpn-registry a id r) [
  | inl e ↦ rw e (ground (arith, is_running-monitor_stop id j r))
  | inr e ↦ rw e
]

-- A process that is gone from probe `m` on ends the wait there, or behind the last round.
wait_exit_lem :
    (n k m : ℕ) (exists : ℕ → Bool)
    → ((i : ℕ) → exists i ≡ ltb i m)
    → k ≤ m
    → wait_exit n k exists ≡ min (suc m) (k + n)
unfolding wait_exit
wait_exit_lem zero k m exists h le = omega arith
wait_exit_lem (suc n) k m exists h le = ground (arith, h k, wait_exit_lem n (suc k) m exists h)

-- To a process that accepts SIGTERM and answers exactly the first `m` probes, `stop_openvpn` sends
-- SIGKILL if and only if `m` is over 30: three seconds are waited in full, and no longer.
pub stop_openvpn-signals :
    (a : StopAnswers) (id m : ℕ) (r : Registry) (pid : ℕ)
    → a.pid_file ≡ holds (pos (suc pid))
    → a.term_sent ≡ true
    → ((i : ℕ) → a.exists i ≡ ltb i m)
    → (stop_openvpn a id r).signals
      ≡ sigterm (pos (suc pid)) ∷ (if ltb 30 m then sigkill (pos (suc pid)) ∷ [] else [])
unfolding stop_openvpn kill_after get_openvpn_pid
stop_openvpn-signals a id m r pid file sent h =
    ground (arith, wait_exit_lem 30 0 m a.exists h, h (wait_exit 30 0 a.exists))
