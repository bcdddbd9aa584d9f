-- ===== src/Process/StopAll.antt =====
-- `monitor_stop_all`: what is off when the daemon ends, and what it misses.
use ovpn_manager.Prelude.{
  ℕ, ◌≡◌, refl, ◌∙◌, true, false, List, [], ◌∷◌, if◌then◌else◌, arith, length, ltb,
}
use ovpn_manager.Monitor.{Registry, max_running, is_running, monitor_start, monitor_stop}
use ovpn_manager.Monitor.Table.{count}
use ovpn_manager.Monitor.Calls.{
  is_running-monitor_stop, is_running-monitor_start, count-monitor_start,
}
use ovpn_manager.Monitor.Tracking.{IsSound, IsTracked, monitor_stop-IsTracked}
use ovpn_manager.Process.{StopAnswers, stop_each, join_each, monitor_stop_all}
use ovpn_manager.Process.Stop.{
  stop_openvpn-IsTracked, is_running-stop_openvpn-le, is_running-stop_openvpn_ne,
}

join_each-IsTracked : (ids : List ℕ) (r : Registry) → IsTracked r → IsTracked (join_each ids r)
unfolding join_each
join_each-IsTracked [] r t = t
join_each-IsTracked (id ∷ ids) r t = join_each-IsTracked ids _ (monitor_stop-IsTracked id r t)

-- The ids that the second loop visits are off, the others as before.
is_running-join_each :
    (ids : List ℕ) (j : ℕ) (r : Registry)
    → is_running j (join_each ids r).monitors
      ≡ (if ltb 0 (count j ids) then false else is_running j r.monitors)
unfolding join_each
is_running-join_each [] j r = refl
is_running-join_each (id ∷ ids) j r =
    ground (arith, is_running-join_each ids j (monitor_stop id r), is_running-monitor_stop id j r)

module _ (answers : ℕ → StopAnswers) where
  stop_each-IsTracked :
      (ids : List ℕ) (r : Registry) → IsTracked r → IsTracked (stop_each answers ids r).0
  unfolding stop_each
  stop_each-IsTracked [] r t = t
  stop_each-IsTracked (id ∷ ids) r t =
      stop_each-IsTracked ids _ (stop_openvpn-IsTracked (answers id) id r t)

  is_running-stop_each-le :
      (ids : List ℕ) (j : ℕ) (r : Registry)
      → is_running j r.monitors ≡ false
      → is_running j (stop_each answers ids r).0.monitors ≡ false
  unfolding stop_each
  is_running-stop_each-le [] j r h = h
  is_running-stop_each-le (id ∷ ids) j r h =
      is_running-stop_each-le ids j _ (is_running-stop_openvpn-le (answers id) id j r h)

  is_running-stop_each_absent :
      (ids : List ℕ) (j : ℕ) (r : Registry)
      → count j ids ≡ 0
      → is_running j (stop_each answers ids r).0.monitors ≡ is_running j r.monitors
  unfolding stop_each
  is_running-stop_each_absent [] j r h = refl
  is_running-stop_each_absent (id ∷ ids) j r h =
      is_running-stop_each_absent ids j _ (ground arith)
      ∙ is_running-stop_openvpn_ne (answers id) id j r (ground arith)

count-zero : (xs : List ℕ) → ((j : ℕ) → count j xs ≡ 0) → xs ≡ []
count-zero [] h = refl
count-zero (x ∷ xs) h = absurd (ground (arith, h x))

-- From a registry whose running list is exact, `monitor_stop_all` turns every monitor off and
-- empties the running list, whatever the system answers when the processes are stopped.
pub monitor_stop_all_lem :
    (answers : ℕ → StopAnswers) (r : Registry)
    → IsTracked r
    → ((j : ℕ) → is_running j (monitor_stop_all answers r).0.monitors ≡ false)
      × ((monitor_stop_all answers r).0.running_configs ≡ [])
unfolding monitor_stop_all
monitor_stop_all_lem answers r t = (off, count-zero _ λ j. ground (arith, off j, tracked j))
  where
    off : (j : ℕ) → is_running j (monitor_stop_all answers r).0.monitors ≡ false
    off j = ground (
      arith,
      t j,
      is_running-join_each r.running_configs j (stop_each answers r.running_configs r).0,
      is_running-stop_each-le answers r.running_configs j r,
    )

    tracked : IsTracked (monitor_stop_all answers r).0
    tracked =
        join_each-IsTracked r.running_configs _ (stop_each-IsTracked answers r.running_configs r t)

-- A configuration that is started while 32 others run is missed: its monitor is on, and
-- `monitor_stop_all` leaves it on.
pub monitor_stop_all_misses :
    (answers : ℕ → StopAnswers) (r : Registry) (id : ℕ)
    → IsSound r
    → length r.running_configs ≡ max_running
    → is_running id r.monitors ≡ false
    → is_running id (monitor_stop_all answers (monitor_start true id r).0).0.monitors ≡ true
unfolding monitor_stop_all
monitor_stop_all_misses answers r id s full off =
    let r' = (monitor_start true id r).0 in
    ground (
      arith,
      s.listed id,
      count-monitor_start true id id r,
      is_running-monitor_start true id id r,
      is_running-join_each r'.running_configs id (stop_each answers r'.running_configs r').0,
      is_running-stop_each_absent answers r'.running_configs id r',
    )
