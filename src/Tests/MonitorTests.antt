-- ===== src/Tests/MonitorTests.antt =====
-- A thread over three rounds, and a report that arrives in two pieces.
use ovpn_manager.Prelude.{
  ℕ, ◌≤◌, ◌≡◌, refl, true, [], ◌∷◌, ◌++◌, ltb, codes, concat, starts_with, arith,
}
use ovpn_manager.Sessions.Table
use ovpn_manager.Sessions.Table.{Store, fits_id_list}
use ovpn_manager.Sessions.Counts.{open_in}
use ovpn_manager.Sessions.Online.{known_profiles}
use ovpn_manager.Sessions.Report.{report, lines_from, clients_of}
use ovpn_manager.Prelude.Decimal.{decimal}
use ovpn_manager.Monitor.Thread.{Round, is_complete, receive, monitor_thread}
use ovpn_manager.Monitor.Thread.Receive.{IsReceived, receive-IsReceived}
use ovpn_manager.Monitor.Thread.Polling.{is_kept, exit_of, monitor_thread-ended}

abbrev no_answers : Table.Answers
no_answers = record {
  user_found = λ name. true;
  session_found = λ pid. true;
  updated = λ pid. true;
  inserted = λ pid. true;
  marked = true;
  time_buf = λ t. t;
}

-- The process is there in the rounds 0 and 1.
abbrev rounds : ℕ → Round
rounds i = record {
  running = true;
  alive = λ k. ltb i 2;
  opened = true;
  connected = true;
  sent = true;
  pieces = (10 ∷ b'E' ∷ []) ∷ (b'N' ∷ b'D' ∷ 10 ∷ []) ∷ [];
  profiles = [];
  answers = no_answers;
}

-- A session of profile 8 is open; no round's report names the profile.
abbrev one_session : Store
one_session = record {
  sessions =
      record {
        id = 1;
        profile_id = 8;
        user_id = 2;
        config_id = 3;
        virtual_ip = codes "10.8.0.3";
        real_ip = codes "9.8.7.4";
        connected_since = codes "2024-05-01 09:00:00";
        bytes_sent = 1;
        bytes_received = 2;
        online = true;
      }
      ∷ [];
  next_id = 2;
}

seen_early : (k : ℕ) → k ≤ 1 → is_kept (rounds k) ≡ true
seen_early k le = ground arith

monitor_thread-ended_example :
    let (after, exit) = monitor_thread true 3 9 rounds one_session in
    (exit ≡ exit_of (rounds 2)) × (open_in 3 8 after.sessions ≡ 0)
unfolding receive is_complete known_profiles report lines_from clients_of fits_id_list decimal
    starts_with
monitor_thread-ended_example =
    monitor_thread-ended 3 9 1 8 rounds one_session (omega arith) seen_early refl refl refl refl
      refl

receive-IsReceived_example :
    IsReceived
      ([] ++ concat ((10 ∷ b'E' ∷ []) ∷ (b'N' ∷ b'D' ∷ 10 ∷ codes "x") ∷ []))
      (receive [] ((10 ∷ b'E' ∷ []) ∷ (b'N' ∷ b'D' ∷ 10 ∷ codes "x") ∷ []))
receive-IsReceived_example =
    receive-IsReceived [] ((10 ∷ b'E' ∷ []) ∷ (b'N' ∷ b'D' ∷ 10 ∷ codes "x") ∷ [])
      (refl, (refl, tt)) (omega arith)

receive_run :
    receive [] ((10 ∷ b'E' ∷ []) ∷ (b'N' ∷ b'D' ∷ 10 ∷ []) ∷ codes "late" ∷ [])
    ≡ 10 ∷ b'E' ∷ b'N' ∷ b'D' ∷ 10 ∷ []
unfolding receive is_complete starts_with
receive_run = refl
