-- ===== src/Monitor/Tracking.antt =====
-- The running list and the contexts: what each call keeps between the two.
use ovpn_manager.Prelude.{ℕ, ◌≤◌, ◌<◌, ◌≡◌, Bool, List, [], ◌∷◌, length, arith}
use ovpn_manager.Monitor.{
  Registry, empty, max_running, is_running, is_alive, monitor_start, monitor_stop, thread_exit,
}
use ovpn_manager.Monitor.Table.{is_running-exit, is_alive-exit, count}
use ovpn_manager.Monitor.Calls.{
  flag, is_running-monitor_start, is_running-monitor_stop, is_alive-monitor_start,
  is_alive-monitor_stop, count-monitor_start, count-monitor_stop, length-monitor_start,
  length-monitor_stop,
}

-- What every history keeps: no id stands twice in the running list, one that stands there has a
-- context that runs, a thread that lives has a context that runs, and the list fits its array.
pub record IsSound (r : Registry) : Type 0 where
  pub listed : (j : ℕ) → count j r.running_configs ≤ flag (is_running j r.monitors)
  pub threads : (j : ℕ) → flag (is_alive j r.monitors) ≤ flag (is_running j r.monitors)
  pub fits : length r.running_configs ≤ max_running

-- The running list holds exactly the ids whose contexts run, each once.
abbrev pub IsTracked : Registry → Type 0
IsTracked r = (j : ℕ) → count j r.running_configs ≡ flag (is_running j r.monitors)

pub monitor_start-IsSound :
    (created : Bool) (id : ℕ) (r : Registry) → IsSound r → IsSound (monitor_start created id r).0
monitor_start-IsSound created id r s = record {
  listed = λ j. ground (
    arith,
    s.listed j,
    s.listed id,
    is_running-monitor_start created id j r,
    count-monitor_start created id j r,
  );
  threads = λ j. ground (
    arith,
    s.threads j,
    s.threads id,
    is_running-monitor_start created id j r,
    is_alive-monitor_start created id j r,
  );
  fits = length-monitor_start created id r s.fits;
}

pub monitor_stop-IsSound : (id : ℕ) (r : Registry) → IsSound r → IsSound (monitor_stop id r)
monitor_stop-IsSound id r s = record {
  listed = λ j.
      ground
        (arith, s.listed j, s.listed id, is_running-monitor_stop id j r, count-monitor_stop id j r);
  threads = λ j. ground (
    arith,
    s.threads j,
    s.threads id,
    is_running-monitor_stop id j r,
    is_alive-monitor_stop id j r,
  );
  fits = omega (arith, length-monitor_stop id r, s.fits);
}

pub thread_exit-IsSound : (id : ℕ) (r : Registry) → IsSound r → IsSound (thread_exit id r)
unfolding thread_exit
thread_exit-IsSound id r s = record {
  listed = λ j. rw (is_running-exit j id r.monitors) (s.listed j);
  threads = λ j. ground (
    arith,
    s.threads j,
    is_running-exit j id r.monitors,
    is_alive-exit j id (is_running id r.monitors) r.monitors,
  );
  fits = s.fits;
}

-- What happens to the registry: the two calls, and a thread that ends by itself.
pub data Event : Type 0 where
  start : Bool → ℕ → Event
  stop exit : ℕ → Event

unfoldable pub happen : Registry → Event → Registry
happen r (start created id) = (monitor_start created id r).0
happen r (stop id) = monitor_stop id r
happen r (exit id) = thread_exit id r

unfoldable pub run : Registry → List Event → Registry
run r [] = r
run r (e ∷ es) = run (happen r e) es

pub run-IsSound : (es : List Event) (r : Registry) → IsSound r → IsSound (run r es)
unfolding run happen
run-IsSound [] r s = s
run-IsSound (start created id ∷ es) r s = run-IsSound es _ (monitor_start-IsSound created id r s)
run-IsSound (stop id ∷ es) r s = run-IsSound es _ (monitor_stop-IsSound id r s)
run-IsSound (exit id ∷ es) r s = run-IsSound es _ (thread_exit-IsSound id r s)

empty-IsSound : IsSound empty
unfolding is_running is_alive
empty-IsSound = record { listed = λ j. omega arith; threads = λ j. omega arith; fits = omega arith }

-- After any history of starts, stops and threads that end, from the empty tables on: no id stands
-- twice in `running_configs`, an id that stands there has a context that runs, a thread that lives
-- has a context that runs, and at most 32 entries are used.
pub run-empty-IsSound : (es : List Event) → IsSound (run empty es)
run-empty-IsSound es = run-IsSound es empty empty-IsSound

-- While fewer than 32 configurations run, a start keeps the running list exact.
pub monitor_start-IsTracked :
    (created : Bool) (id : ℕ) (r : Registry)
    → length r.running_configs < max_running
    → IsTracked r
    → IsTracked (monitor_start created id r).0
monitor_start-IsTracked created id r room t j =
    ground (
      arith,
      t j,
      t id,
      is_running-monitor_start created id j r,
      count-monitor_start created id j r,
    )

pub monitor_stop-IsTracked : (id : ℕ) (r : Registry) → IsTracked r → IsTracked (monitor_stop id r)
monitor_stop-IsTracked id r t j =
    ground (arith, t j, t id, is_running-monitor_stop id j r, count-monitor_stop id j r)

pub thread_exit-IsTracked : (id : ℕ) (r : Registry) → IsTracked r → IsTracked (thread_exit id r)
unfolding thread_exit
thread_exit-IsTracked id r t j = rw (is_running-exit j id r.monitors) (t j)
