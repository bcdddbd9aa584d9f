-- ===== src/Tests/ProcessTests.antt =====
-- The monitors and the processes on concrete registries.
use ovpn_manager.Prelude.{ℕ, zero, suc, ◌≡◌, refl, true, false, List, [], ◌∷◌, ltb, arith, length}
use ovpn_manager.Prelude.Int.{pos}
use ovpn_manager.Monitor.{
  Registry, empty, is_running, is_alive, get_monitor_ctx, set_context, max_running, monitor_start,
  monitor_stop, thread_exit, remove_running,
}
use ovpn_manager.Monitor.Tracking.{
  IsSound, IsTracked, Event, start, stop, exit, run, happen, run-empty-IsSound,
}
use ovpn_manager.Process.{
  holds, sigterm, StopAnswers, StartAnswers, child, running, get_openvpn_pid, stop_openvpn,
  start_openvpn, monitor_stop_all, after_fork, after_wait,
}
use ovpn_manager.Process.Stop.{stop_openvpn-signals}
use ovpn_manager.Process.StopAll.{monitor_stop_all_lem, monitor_stop_all_misses}
use ovpn_manager.Process.Restart.{start_openvpn_unwatched}

-- Configurations 3 and 5 run.
abbrev two : Registry
two = record {
  monitors =
      record { config_id = 3; running = true; alive = true }
      ∷ record { config_id = 5; running = true; alive = true }
      ∷ [];
  running_configs = 3 ∷ 5 ∷ [];
}

two-IsTracked : IsTracked two
unfolding is_running
two-IsTracked j = ground arith

abbrev history : List Event
history = start true 3 ∷ start true 5 ∷ start false 9 ∷ exit 3 ∷ stop 3 ∷ start true 3 ∷ []

run-history : (run empty history).running_configs ≡ 5 ∷ 3 ∷ []
unfolding run happen monitor_start monitor_stop thread_exit get_monitor_ctx set_context is_running
    is_alive remove_running
run-history = refl

run-empty-IsSound_example : IsSound (run empty history)
run-empty-IsSound_example = run-empty-IsSound history

-- A process that is gone at the third probe.
abbrev obeys : StopAnswers
obeys = record { pid_file = holds (pos 41); term_sent = true; exists = λ i. ltb i 2 }

-- A pid file of a process that is gone.
abbrev stale : StopAnswers
stale = record { pid_file = holds (pos 41); term_sent = false; exists = λ i. false }

abbrev starts : StopAnswers → StartAnswers
starts a = record {
  executable = true;
  stop = a;
  generated = true;
  fork = child;
  wait = running;
  created = true;
}

stop_openvpn-signals_example : (stop_openvpn obeys 3 two).signals ≡ sigterm (pos 41) ∷ []
stop_openvpn-signals_example = stop_openvpn-signals obeys 3 2 two 40 refl refl (λ i. refl)

-- Configuration 3, whose thread has ended by itself.
abbrev ended : Registry
ended = record {
  monitors = record { config_id = 3; running = true; alive = false } ∷ [];
  running_configs = 3 ∷ [];
}

start_openvpn_unwatched_example :
    ((start_openvpn (starts stale) 3 ended).success ≡ true)
    × (is_running 3 (start_openvpn (starts stale) 3 ended).registry.monitors ≡ true)
    × (is_alive 3 (start_openvpn (starts stale) 3 ended).registry.monitors ≡ false)
unfolding start_openvpn stop_openvpn get_openvpn_pid after_fork after_wait is_running is_alive
start_openvpn_unwatched_example =
    start_openvpn_unwatched (starts stale) 3 ended refl refl refl refl refl refl refl refl

monitor_stop_all_lem_example :
    ((j : ℕ) → is_running j (monitor_stop_all (λ _. stale) two).0.monitors ≡ false)
    × ((monitor_stop_all (λ _. stale) two).0.running_configs ≡ [])
monitor_stop_all_lem_example = monitor_stop_all_lem (λ _. stale) two two-IsTracked

-- Starts of the configurations `n` down to 1.
abbrev starts_from : ℕ → List Event
starts_from zero = []
starts_from (suc n) = start true (suc n) ∷ starts_from n

full_length : length (run empty (starts_from 32)).running_configs ≡ max_running
unfolding run happen monitor_start get_monitor_ctx set_context is_running is_alive
full_length = refl

full_off : is_running 33 (run empty (starts_from 32)).monitors ≡ false
unfolding run happen monitor_start get_monitor_ctx set_context is_running is_alive
full_off = refl

monitor_stop_all_misses_example :
    is_running 33
      (monitor_stop_all
        (λ _. obeys)
        (monitor_start true 33 (run empty (starts_from 32))).0).0.monitors
    ≡ true
monitor_stop_all_misses_example =
    monitor_stop_all_misses (λ _. obeys) (run empty (starts_from 32)) 33
      (run-empty-IsSound (starts_from 32)) full_length full_off
