-- ===== src/Monitor.antt =====
-- master/monitor.c: the table of monitor contexts and the list of running configurations. A context
-- is found by its configuration id; `alive` says that its thread was created and has not returned.
pub mod Table
pub mod Calls
pub mod Tracking
pub mod Kick
pub mod Thread
use ovpn_manager.Prelude.{
  ℕ, suc, Bool, true, false, List, [], ◌∷◌, ◌++◌, ◌==◌, ltb, if◌then◌else◌, length,
}

-- `monitor_ctx_t`
pub record Context : Type 0 where
  pub config_id : ℕ
  pub running : Bool
  pub alive : Bool

-- `monitors`, and `running_configs` up to `running_count`.
pub record Registry : Type 0 where
  pub monitors : List Context
  pub running_configs : List ℕ

abbrev pub empty : Registry
empty = record { monitors = []; running_configs = [] }

-- sizeof(running_configs) / sizeof(int)
abbrev pub max_running : ℕ
max_running = 32

-- The table behind `get_monitor_ctx`, which appends a context that is missing.
unfoldable pub get_monitor_ctx : ℕ → List Context → List Context
get_monitor_ctx id [] = record { config_id = id; running = false; alive = false } ∷ []
get_monitor_ctx id (m ∷ ms) = if m.config_id == id then m ∷ ms else m ∷ get_monitor_ctx id ms

-- `ctx->running`, read through the context of `id`; false where there is none.
unfoldable pub is_running : ℕ → List Context → Bool
is_running id [] = false
is_running id (m ∷ ms) = if m.config_id == id then m.running else is_running id ms

-- The context's thread is there.
unfoldable pub is_alive : ℕ → List Context → Bool
is_alive id [] = false
is_alive id (m ∷ ms) = if m.config_id == id then m.alive else is_alive id ms

-- A write through the context of `id`.
unfoldable pub set_context : ℕ → Bool → Bool → List Context → List Context
set_context id run live [] = []
set_context id run live (m ∷ ms) =
    if m.config_id == id
    then record m { running = run; alive = live } ∷ ms
    else m ∷ set_context id run live ms

-- The last entry in front of the others: `running_configs[i] = running_configs[--running_count]`.
unfoldable pub last_or : ℕ → List ℕ → ℕ
last_or x [] = x
last_or x (y ∷ ys) = last_or y ys

unfoldable pub but_last : ℕ → List ℕ → List ℕ
but_last x [] = []
but_last x (y ∷ ys) = x ∷ but_last y ys

unfoldable pub move_last : List ℕ → List ℕ
unfolding last_or but_last
move_last [] = []
move_last (x ∷ xs) = last_or x xs ∷ but_last x xs

-- The removal loop of `monitor_stop`.
unfoldable pub remove_running : ℕ → List ℕ → List ℕ
unfolding move_last
remove_running id [] = []
remove_running id (x ∷ xs) = if x == id then move_last xs else x ∷ remove_running id xs

-- `created` says that `pthread_create` succeeds; the result says that 0 is returned.
unfoldable pub monitor_start : Bool → ℕ → Registry → Registry × Bool
monitor_start created id r =
    let ms = get_monitor_ctx id r.monitors in
    if is_running id ms
    then (record r { monitors = ms }, true)
    else if created
    then (
      record {
        monitors = set_context id true true ms;
        running_configs =
            if ltb (length r.running_configs) max_running
            then r.running_configs ++ id ∷ []
            else r.running_configs;
      },
      true,
    )
    else (record r { monitors = set_context id false (is_alive id ms) ms }, false)

-- `pthread_join` returns when the thread has left its loop.
unfoldable pub monitor_stop : ℕ → Registry → Registry
monitor_stop id r =
    let ms = get_monitor_ctx id r.monitors in
    if is_running id ms
    then record {
      monitors = set_context id false false ms;
      running_configs = remove_running id r.running_configs;
    }
    else record r { monitors = ms }

-- `monitor_thread` returns by itself: no database connection, or the OpenVPN process is gone. The
-- function does not write `ctx->running`.
unfoldable pub thread_exit : ℕ → Registry → Registry
thread_exit id r = record r {
  monitors = set_context id (is_running id r.monitors) false r.monitors;
}
