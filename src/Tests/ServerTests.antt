-- ===== src/Tests/ServerTests.antt =====
-- Requests to the daemon, from one with no process on.
use ovpn_manager.Prelude.{
  ℕ, List, ◌+◌, ◌≤◌, ◌<◌, ◌≡◌, refl, ◌⊎◌, true, false, [], ◌∷◌, ◌++◌, none, some, ◌==◌,
  if◌then◌else◌, codes, eqb, contains, length,
}
use ovpn_manager.Prelude.Int.{pos, is_pos}
use ovpn_manager.Requests.{Params, number, string, ok, ok_data, error, not_stopped}
use ovpn_manager.Authorities.Rows.{find_config}
use ovpn_manager.Monitor.{empty, is_running, is_alive}
use ovpn_manager.Monitor.Kick.{kill_command, kill_command-lines}
use ovpn_manager.Monitor.Tracking.{run-empty-IsSound}
use ovpn_manager.Monitor.Tracking
use ovpn_manager.Sessions.Report.{lines_from}
use ovpn_manager.Process.{
  no_file, holds, get_openvpn_pid, StopAnswers, StartAnswers, child, running, exited, stop_openvpn,
  start_openvpn,
}
use ovpn_manager.Clients.Keys.{names_differ, pairs_differ}
use ovpn_manager.Generate.{conf_text, prepare_dh, generate_openvpn_config}
use ovpn_manager.Server.{
  Answers, Request, request, thread_ends, dispatch_request, handle_apply_config, handle_stop_config,
  start_for, finish_apply, run,
}
use ovpn_manager.Server.State.{Daemon}
use ovpn_manager.Server.Actions.{action_of}
use ovpn_manager.Server.Listen
use ovpn_manager.Server.Listen.{start_socket_server}
use ovpn_manager.Server.Settled.{makes, closes, settled, accepts, start_socket_server-settled}
use ovpn_manager.Server.Sound.{IsSound}
use ovpn_manager.Server.Invariant.{run-IsSound}
use ovpn_manager.Server.Apply.{
  with_status, handle_apply_config-ok, handle_apply_config_failed, handle_stop_config_lem,
}
use ovpn_manager.Tests.AuthorityTests.{toy_openssl, toy_answers, config_row, one_ca, one_ca-IsSound}
use ovpn_manager.Tests.ClientTests.{accepted, issue_answers}
use ovpn_manager.Tests.GenerateTests.{no_inet, no_files, all_well}

abbrev daemon : Daemon
daemon = record {
  registry = empty;
  tables = one_ca;
  files = no_files;
  signals = [];
  management = [];
  events = [];
  logins = [];
}

abbrev no_process : StopAnswers
no_process = record { pid_file = no_file; term_sent = false; exists = λ n. false }

abbrev gone_process : StopAnswers
gone_process = record { pid_file = holds (pos 77); term_sent = false; exists = λ n. false }

abbrev starts : StartAnswers
starts = record {
  executable = true;
  stop = no_process;
  generated = true;
  fork = child;
  wait = running;
  created = true;
}

abbrev answers : Answers toy_openssl
answers = record {
  start = starts;
  stop = no_process;
  files = all_well;
  kick = record { opened = true; connected = true; sent = true };
  issue = issue_answers;
  clients = accepted;
  authority = toy_answers;
  updated = true;
  logged = true;
}

abbrev fails : Answers toy_openssl
fails = record answers { start = record starts { wait = exited }; stop = gone_process }

abbrev config_params : Params
config_params key = if eqb key (codes "config_id") then some (number (pos 3)) else none

abbrev apply_request : Request
apply_request = record { action = some (string (codes "apply_config")); params = config_params }

ping_run :
    (dispatch_request toy_openssl no_inet answers
      (codes "system")
      (record { action = some (string (codes "ping")); params = config_params })
      daemon).1
    ≡ some (ok_data (codes "pong"))
unfolding dispatch_request action_of eqb
ping_run = refl

apply_run :
    (handle_apply_config toy_openssl no_inet answers (codes "system") config_params daemon).1 ≡ ok
unfolding handle_apply_config start_for finish_apply start_openvpn generate_openvpn_config
    find_config eqb prepare_dh
apply_run = refl

run-IsSound_example : IsSound toy_openssl (
    run toy_openssl no_inet
      (codes "system")
      (request answers apply_request ∷ thread_ends true (pos 3) ∷ [])
      daemon)
unfolding Tracking.run names_differ pairs_differ
run-IsSound_example =
    run-IsSound toy_openssl no_inet (codes "system")
      (request answers apply_request ∷ thread_ends true (pos 3) ∷ []) daemon (refl, (tt, tt))
      (record {
        registry = run-empty-IsSound [];
        tables = record {
          authorities = one_ca-IsSound;
          clients = record { names = refl; pairs = refl };
        };
      })

handle_apply_config-ok_example :
    let after =
      (handle_apply_config toy_openssl no_inet answers (codes "system") config_params daemon).0 in
    (after.files.conf 3 ≡ some (conf_text toy_openssl no_inet all_well 3 config_row))
    × ((j : ℕ)
        → find_config j after.tables.configs ≡ (
            if j == 3
            then some (with_status true (codes "running") config_row)
            else find_config j one_ca.configs))
    × ((stop_openvpn no_process 3 empty).success ≡ true
        → true ≡ true
        → is_alive 3 after.registry.monitors ≡ true)
unfolding eqb find_config
handle_apply_config-ok_example =
    handle_apply_config-ok toy_openssl no_inet answers (codes "system") config_params 3 config_row
      daemon refl refl apply_run

handle_apply_config_failed_example :
    let after =
      (handle_apply_config toy_openssl no_inet fails (codes "system") config_params daemon).0 in
    (is_running 3 after.registry.monitors ≡ false) × (after.tables ≡ one_ca)
unfolding handle_apply_config start_for finish_apply start_openvpn stop_openvpn
    generate_openvpn_config find_config eqb prepare_dh
handle_apply_config_failed_example =
    handle_apply_config_failed toy_openssl no_inet fails (codes "system") config_params 3 daemon
      refl refl refl refl

handle_stop_config_lem_example :
    let (after, reply) = handle_stop_config toy_openssl no_inet fails config_params daemon in
    ((reply ≡ ok)
      × ((j : ℕ)
          → find_config j after.tables.configs ≡ (
              if j == 3
              then some (with_status true (codes "stopped") config_row)
              else find_config j one_ca.configs))
      × ((j : ℕ)
          → is_running j after.registry.monitors
            ≡ (if j == 3 then false else is_running j empty.monitors)))
    ⊎ ((reply ≡ error not_stopped)
        × (is_pos (get_openvpn_pid gone_process.pid_file) ≡ true)
        × (gone_process.term_sent ≡ false)
        × (after.tables ≡ one_ca)
        × (after.registry ≡ empty)
        × (after.signals ≡ []))
unfolding eqb find_config
handle_stop_config_lem_example =
    handle_stop_config_lem toy_openssl no_inet fails config_params 3 config_row daemon refl refl

kill_command-lines_example :
    (length (codes "bob") ≤ 505
      → lines_from [] (kill_command (codes "bob")) ≡ (codes "kill " ++ codes "bob") ∷ [])
    × (length (codes "bob") + length (codes "signal SIGTERM") ≤ 504
        → lines_from [] (kill_command (codes "bob" ++ (b'\n' ∷ codes "signal SIGTERM")))
          ≡ (codes "kill " ++ codes "bob") ∷ lines_from [] (codes "signal SIGTERM" ++ (b'\n' ∷ [])))
    × (505 < length (codes "bob") → contains b'\n' (kill_command (codes "bob")) ≡ false)
kill_command-lines_example = kill_command-lines (codes "bob") (codes "signal SIGTERM") refl

abbrev sockets : Listen.Answers
sockets = record {
  made = true;
  valid_host = true;
  dir_there = false;
  dir_made = true;
  bound = true;
  listened = true;
}

abbrev connections : List Listen.Round
connections =
    Listen.accepted 5 true
    ∷ Listen.no_memory
    ∷ Listen.accepted 6 false
    ∷ Listen.not_accepted true
    ∷ []

start_socket_server-settled_example :
    let (es, success) = start_socket_server sockets (pos 0) connections in
    (closes es ≡ makes es)
    × ((fd : ℕ) → settled fd es ≡ (if success then accepts fd connections else 0))
start_socket_server-settled_example = start_socket_server-settled sockets (pos 0) connections

sockets_run : start_socket_server sockets (pos 0) connections ≡ (
  Listen.make
      ∷ Listen.unlink_path
      ∷ Listen.make_dir
      ∷ Listen.set_mode
      ∷ Listen.handed 5
      ∷ Listen.closed 6
      ∷ Listen.close_socket
      ∷ Listen.unlink_path
      ∷ [],
  true,
)
unfolding start_socket_server
sockets_run = refl
