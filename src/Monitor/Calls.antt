-- ===== src/Monitor/Calls.antt =====
-- What each call leaves in the contexts and in the running list.
use ovpn_manager.Prelude.{
  ℕ, ◌+◌, ◌≤◌, ◌≡◌, Bool, true, false, [], ◌∷◌, ◌==◌, if◌then◌else◌, length, length-append, arith,
  ltb, not, ◌||◌, ◌-◌,
}
use ovpn_manager.Monitor.{
  Registry, max_running, get_monitor_ctx, is_running, is_alive, monitor_start, monitor_stop,
}
use ovpn_manager.Monitor.Table.{
  is_running-get_monitor_ctx, is_alive-get_monitor_ctx, is_running-set, is_alive-set, count,
  count-append, count-remove_running, length-remove_running-le,
}

abbrev pub flag : Bool → ℕ
flag b = if b then 1 else 0

-- `running` of every context after a call.
pub is_running-monitor_start :
    (created : Bool) (id j : ℕ) (r : Registry)
    → is_running j (monitor_start created id r).0.monitors ≡ (
        if j == id
        then (if is_running id r.monitors then true else created)
        else is_running j r.monitors)
unfolding monitor_start
is_running-monitor_start created id j r = ground (
  arith,
  is_running-get_monitor_ctx j id r.monitors,
  is_running-get_monitor_ctx id id r.monitors,
  is_running-set j id created created r.monitors,
  is_running-set j id false (is_alive id (get_monitor_ctx id r.monitors)) r.monitors,
)

pub is_running-monitor_stop :
    (id j : ℕ) (r : Registry)
    → is_running j (monitor_stop id r).monitors
      ≡ (if j == id then false else is_running j r.monitors)
unfolding monitor_stop
is_running-monitor_stop id j r = ground (
  arith,
  is_running-get_monitor_ctx j id r.monitors,
  is_running-get_monitor_ctx id id r.monitors,
  is_running-set j id false false r.monitors,
)

pub is_alive-monitor_start :
    (created : Bool) (id j : ℕ) (r : Registry)
    → is_alive j (monitor_start created id r).0.monitors ≡ (
        if j == id
        then (if is_running id r.monitors
            then is_alive id r.monitors
            else created || is_alive id r.monitors)
        else is_alive j r.monitors)
unfolding monitor_start
is_alive-monitor_start created id j r = ground (
  arith,
  is_running-get_monitor_ctx id id r.monitors,
  is_alive-get_monitor_ctx j id r.monitors,
  is_alive-get_monitor_ctx id id r.monitors,
  is_alive-set j id true true r.monitors,
  is_alive-set j id false (is_alive id (get_monitor_ctx id r.monitors)) r.monitors,
)

pub is_alive-monitor_stop :
    (id j : ℕ) (r : Registry)
    → is_alive j (monitor_stop id r).monitors ≡ (
        if j == id
        then (if is_running id r.monitors then false else is_alive id r.monitors)
        else is_alive j r.monitors)
unfolding monitor_stop
is_alive-monitor_stop id j r = ground (
  arith,
  is_running-get_monitor_ctx id id r.monitors,
  is_alive-get_monitor_ctx j id r.monitors,
  is_alive-get_monitor_ctx id id r.monitors,
  is_alive-set j id false false r.monitors,
)

-- The running list after a call.
pub count-monitor_start :
    (created : Bool) (id j : ℕ) (r : Registry)
    → count j (monitor_start created id r).0.running_configs
      ≡ count j r.running_configs
        + (if is_running id r.monitors
              || not created
              || not (ltb (length r.running_configs) max_running)
            then 0
            else (if id == j then 1 else 0))
unfolding monitor_start
count-monitor_start created id j r =
    ground (
      arith,
      is_running-get_monitor_ctx id id r.monitors,
      count-append j r.running_configs (id ∷ []),
    )

pub count-monitor_stop :
    (id j : ℕ) (r : Registry)
    → count j (monitor_stop id r).running_configs
      ≡ count j r.running_configs
        - (if is_running id r.monitors then (if id == j then 1 else 0) else 0)
unfolding monitor_stop
count-monitor_stop id j r = ground (
  arith,
  is_running-get_monitor_ctx id id r.monitors,
  count-remove_running j id r.running_configs,
)

pub length-monitor_start :
    (created : Bool) (id : ℕ) (r : Registry)
    → length r.running_configs ≤ max_running
    → length (monitor_start created id r).0.running_configs ≤ max_running
unfolding monitor_start
length-monitor_start created id r h = ground (arith, length-append r.running_configs (id ∷ []))

pub length-monitor_stop :
    (id : ℕ) (r : Registry) → length (monitor_stop id r).running_configs ≤ length r.running_configs
unfolding monitor_stop
length-monitor_stop id r = ground (arith, length-remove_running-le id r.running_configs)
