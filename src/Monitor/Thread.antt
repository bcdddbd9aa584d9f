-- ===== src/Monitor/Thread.antt =====
-- master/monitor.c, monitor_thread: the polling of one configuration. What the system answers in
-- each round of the loop is an argument.
pub mod Receive
pub mod Polling
use ovpn_manager.Prelude.{
  ℕ, zero, suc, ◌-◌, Bool, true, false, ◌&&◌, ◌||◌, List, [], ◌∷◌, ◌++◌, if◌then◌else◌, Bytes,
  starts_with, is_empty, take, length, contains_text,
}
use ovpn_manager.Sessions.Table
use ovpn_manager.Sessions.Table.{Profile, Store, update_sessions}

-- "\nEND\r\n" or "\nEND\n" stands in the buffer.
unfoldable pub is_complete : Bytes → Bool
unfolding contains_text
is_complete buffer =
    contains_text (10 ∷ b'E' ∷ b'N' ∷ b'D' ∷ 13 ∷ 10 ∷ []) buffer
    || contains_text (10 ∷ b'E' ∷ b'N' ∷ b'D' ∷ 10 ∷ []) buffer

-- sizeof(buffer) - 1
abbrev pub buffer_size : ℕ
buffer_size = 16383

-- The loop around `recv`, with what is in the buffer and what is still to arrive, by the pieces in
-- which it does. A piece is cut to the room in the buffer; a `recv` of nothing ends the loop.
unfoldable pub receive : Bytes → List Bytes → Bytes
receive buffer [] = buffer
receive buffer (c ∷ cs) =
    let got = take (buffer_size - length buffer) c in
    let more = receive (buffer ++ got) cs in
    if is_empty got then buffer else if is_complete (buffer ++ got) then buffer ++ got else more

-- One round. `running`: `ctx->running` at its start. `alive k`: at the k-th look the pid file holds a
-- positive number and kill(pid, 0) returns 0. `pieces`: what arrives behind "status 2\n".
pub record Round : Type 0 where
  pub running : Bool
  pub alive : ℕ → Bool
  pub opened : Bool
  pub connected : Bool
  pub sent : Bool
  pub pieces : List Bytes
  pub profiles : List Profile
  pub answers : Table.Answers

-- The loop of `n` tries, from look number `k` on: the number of the look behind it.
unfoldable pub look : ℕ → ℕ → (ℕ → Bool) → ℕ
look zero k alive = k
look (suc n) k alive = let rest = look n (suc k) alive in if alive k then suc k else rest

-- The check behind the five tries.
unfoldable pub is_present : (ℕ → Bool) → Bool
unfolding look
is_present alive = alive (look 5 0 alive)

-- The rest of a round, on the table vpn_sessions.
unfoldable pub poll : ℕ → Round → Store → Store
poll config_id r st =
    if r.opened && (r.connected && r.sent)
    then (let buffer = receive [] r.pieces in
        if is_empty buffer then st else update_sessions r.answers config_id r.profiles buffer st)
    else st

-- How the thread ended: `process_gone` also sets the status 'stopped'.
pub data Exit : Type 0 where
  no_connection asked process_gone polling : Exit

-- The loop, with `n` rounds before round number `k`; it is `polling` when they are over.
unfoldable pub monitor_loop : ℕ → ℕ → ℕ → (ℕ → Round) → Store → Store × Exit
unfolding poll is_present
monitor_loop config_id zero k rounds st = (st, polling)
monitor_loop config_id (suc n) k rounds st =
    let rest = monitor_loop config_id n (suc k) rounds (poll config_id (rounds k) st) in
    if (rounds k).running
    then (if is_present (rounds k).alive then rest else (st, process_gone))
    else (st, asked)

-- `connected`: the thread's own connection to the database. At most `n` rounds are made.
unfoldable pub monitor_thread : Bool → ℕ → ℕ → (ℕ → Round) → Store → Store × Exit
unfolding monitor_loop
monitor_thread connected config_id n rounds st =
    if connected then monitor_loop config_id n 0 rounds st else (st, no_connection)
