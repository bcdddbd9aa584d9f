-- ===== src/Process.antt =====
-- master/openvpn.c, the life of an OpenVPN process (get_openvpn_pid, stop_openvpn, start_openvpn),
-- and monitor_stop_all of master/monitor.c, which calls it. What the system answers is an argument:
-- the pid file, the results of kill, fork and waitpid, each as the code reads it.
pub mod Stop
pub mod StopAll
pub mod Restart
use ovpn_manager.Prelude.{
  ℕ, zero, suc, Bool, true, false, List, [], ◌∷◌, ◌++◌, Option, none, some, if◌then◌else◌,
}
use ovpn_manager.Prelude.Int.{ℤ, pos, negsuc, is_pos}
use ovpn_manager.Monitor.{Registry, monitor_start, monitor_stop}

-- /var/run/openvpn/vpn-<id>.pid: no file, a file with no number, or one with a number.
pub data PidFile : Type 0 where
  no_file no_number : PidFile
  holds : ℤ → PidFile

unfoldable pub get_openvpn_pid : PidFile → ℤ
get_openvpn_pid no_file = negsuc 0
get_openvpn_pid no_number = negsuc 0
get_openvpn_pid (holds pid) = pid

pub data Signal : Type 0 where
  sigterm sigkill : ℤ → Signal

-- `term_sent`: kill(pid, SIGTERM) returns 0. `exists k`: the probe kill(pid, 0) number `k` after
-- it returns 0.
pub record StopAnswers : Type 0 where
  pub pid_file : PidFile
  pub term_sent : Bool
  pub exists : ℕ → Bool

-- The waiting loop with `n` rounds left before probe number `k`: the number of the next probe.
unfoldable pub wait_exit : ℕ → ℕ → (ℕ → Bool) → ℕ
wait_exit zero k exists = k
wait_exit (suc n) k exists =
    let rest = wait_exit n (suc k) exists in if exists k then rest else suc k

pub record Outcome : Type 0 where
  pub registry : Registry
  pub signals : List Signal
  pub success : Bool

-- What is sent behind the SIGTERM that was accepted.
unfoldable pub kill_after : ℤ → (ℕ → Bool) → List Signal
unfolding wait_exit
kill_after pid exists = if exists (wait_exit 30 0 exists) then sigkill pid ∷ [] else []

-- `success` says that `stop_openvpn` returns 0.
unfoldable pub stop_openvpn : StopAnswers → ℕ → Registry → Outcome
unfolding get_openvpn_pid
stop_openvpn a id r =
    let pid = get_openvpn_pid a.pid_file in
    if is_pos pid
    then (if a.term_sent
        then record {
          registry = monitor_stop id r;
          signals = sigterm pid ∷ kill_after pid a.exists;
          success = true;
        }
        else record { registry = r; signals = []; success = false })
    else record { registry = monitor_stop id r; signals = []; success = true }

pub data ForkResult : Type 0 where
  fork_failed child : ForkResult

-- waitpid(pid, &status, WNOHANG) half a second after the fork.
pub data WaitResult : Type 0 where
  exited running wait_failed : WaitResult

-- `executable`: access(binary, X_OK) returns 0. `generated`: generate_openvpn_config returns 0.
-- `created`: pthread_create returns 0.
pub record StartAnswers : Type 0 where
  pub executable : Bool
  pub stop : StopAnswers
  pub generated : Bool
  pub fork : ForkResult
  pub wait : WaitResult
  pub created : Bool

-- The result of `monitor_start` is only logged.
unfoldable pub after_wait : WaitResult → Bool → ℕ → Outcome → Outcome
after_wait exited created id o = record o { success = false }
after_wait running created id o = record o {
  registry = (monitor_start created id o.registry).0;
  success = true;
}
after_wait wait_failed created id o = record o { success = false }

unfoldable pub after_fork : ForkResult → StartAnswers → ℕ → Outcome → Outcome
unfolding after_wait
after_fork fork_failed a id o = record o { success = false }
after_fork child a id o = after_wait a.wait a.created id o

-- `success` says that `start_openvpn` returns 0. It does not read the result of `stop_openvpn`.
unfoldable pub start_openvpn : StartAnswers → ℕ → Registry → Outcome
unfolding after_fork
start_openvpn a id r =
    let o = stop_openvpn a.stop id r in
    if a.executable
    then (if a.generated then after_fork a.fork a id o else record o { success = false })
    else record { registry = r; signals = []; success = false }

-- The two loops of `monitor_stop_all`; the first gives the signals too.
unfoldable pub stop_each : (ℕ → StopAnswers) → List ℕ → Registry → Registry × List Signal
stop_each answers [] r = (r, [])
stop_each answers (id ∷ ids) r =
    let o = stop_openvpn (answers id) id r in
    let (r', sent) = stop_each answers ids o.registry in (r', o.signals ++ sent)

unfoldable pub join_each : List ℕ → Registry → Registry
join_each [] r = r
join_each (id ∷ ids) r = join_each ids (monitor_stop id r)

-- The copy `configs` is taken before the first process is stopped.
unfoldable pub monitor_stop_all : (ℕ → StopAnswers) → Registry → Registry × List Signal
unfolding stop_each join_each
monitor_stop_all answers r =
    let configs = r.running_configs in
    let (r', sent) = stop_each answers configs r in (join_each configs r', sent)
