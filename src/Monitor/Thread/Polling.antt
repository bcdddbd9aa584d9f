-- ===== src/Monitor/Thread/Polling.antt =====
-- When the thread ends, and with which table.
use ovpn_manager.Prelude.{
  ℕ, zero, suc, ◌+◌, ◌≤◌, ◌<◌, ◌≡◌, sym, ◌∙◌, subst, Bool, true, false, ◌&&◌, not, List, [], ap,
  is_empty, contains, leb, if◌then◌else◌, arith, Bool-cases, inl, inr, ◌==◌, ==_iff,
}
use ovpn_manager.Sessions.Table.{Store, fits_id_list}
use ovpn_manager.Sessions.Counts.{open_in}
use ovpn_manager.Sessions.Online.{recorded, update_sessions-unrecorded}
use ovpn_manager.Monitor.Thread.{
  Round, receive, is_present, poll, Exit, asked, process_gone, monitor_loop, monitor_thread,
}

-- The thread is not asked to stop, and the process is there.
abbrev pub goes_on : Round → Bool
goes_on r = r.running && is_present r.alive

abbrev pub exit_of : Round → Exit
exit_of r = if r.running then process_gone else asked

-- The table when `i` rounds have been polled.
unfoldable pub sessions_after : ℕ → (ℕ → Round) → ℕ → Store → Store
sessions_after config_id rounds zero st = st
sessions_after config_id rounds (suc i) st =
    poll config_id (rounds i) (sessions_after config_id rounds i st)

-- The thread ends at round `i`, the first that does not go on.
pub record IsEnded (config_id : ℕ) (rounds : ℕ → Round) (st : Store) (from m : ℕ)
    (result : Store × Exit) : Type 0 where
  pub round : ℕ
  pub in_time : round ≤ m
  pub late : from ≤ round
  pub stops : goes_on (rounds round) ≡ false
  pub before : (j : ℕ) → from ≤ j → j < round → goes_on (rounds j) ≡ true
  pub left : result ≡ (sessions_after config_id rounds round st, exit_of (rounds round))

monitor_loop-stop :
    (config_id n k : ℕ) (rounds : ℕ → Round) (st : Store)
    → goes_on (rounds k) ≡ false
    → monitor_loop config_id (suc n) k rounds st ≡ (st, exit_of (rounds k))
unfolding monitor_loop
monitor_loop-stop config_id n k rounds st h = ground arith

monitor_loop-next :
    (config_id n k : ℕ) (rounds : ℕ → Round) (st : Store)
    → goes_on (rounds k) ≡ true
    → monitor_loop config_id (suc n) k rounds st
      ≡ monitor_loop config_id n (suc k) rounds (poll config_id (rounds k) st)
unfolding monitor_loop
monitor_loop-next config_id n k rounds st h = ground arith

next_round :
    (rounds : ℕ → Round) (k m : ℕ)
    → k ≤ m
    → goes_on (rounds k) ≡ true
    → goes_on (rounds m) ≡ false
    → suc k ≤ m
next_round rounds k m le on off = elim (Bool-cases (k == m)) [
  | inl same ↦
      let e : k ≡ m = (==_iff k m).0 same in cc (subst (λ i. goes_on (rounds i) ≡ true) e on)
  | inr other ↦ ground arith
]

monitor_loop-IsEnded :
    (config_id n k m : ℕ) (rounds : ℕ → Round) (st : Store)
    → k ≤ m
    → m < k + n
    → goes_on (rounds m) ≡ false
    → IsEnded config_id rounds st k m
        (monitor_loop config_id n k rounds (sessions_after config_id rounds k st))
unfolding sessions_after
monitor_loop-IsEnded config_id zero k m rounds st le lt h = absurd (omega arith)
monitor_loop-IsEnded config_id (suc n) k m rounds st le lt h =
    let now = sessions_after config_id rounds k st in
    elim (Bool-cases (goes_on (rounds k))) [
      | inl on ↦
          let later =
            monitor_loop-IsEnded config_id n (suc k) m rounds st (next_round rounds k m le on h)
              (omega arith) h in
          record {
            round = later.round;
            in_time = later.in_time;
            late = omega (arith, later.late);
            stops = later.stops;
            before = λ j from lt'. (elim (Bool-cases (j == k)) [
              | inl same ↦ subst (λ i. goes_on (rounds i) ≡ true) (sym ((==_iff j k).0 same)) on
              | inr other ↦ later.before j (ground arith) lt'
            ]);
            left = monitor_loop-next config_id n k rounds now on ∙ later.left;
          }
      | inr off ↦ record {
        round = k;
        in_time = le;
        late = omega arith;
        stops = off;
        before = λ j from lt'. absurd (omega arith);
        left = monitor_loop-stop config_id n k rounds now off;
      }
    ]

-- If the thread is asked to stop or the process is gone at some round, the thread ends, at the first
-- such round: the table is what the rounds before have made of it, and the exit is that of a
-- process that is gone just if the thread was not asked.
monitor_thread-IsEnded :
    (config_id n m : ℕ) (rounds : ℕ → Round) (st : Store)
    → m < n
    → goes_on (rounds m) ≡ false
    → IsEnded config_id rounds st 0 m (monitor_thread true config_id n rounds st)
unfolding monitor_thread sessions_after
monitor_thread-IsEnded config_id n m rounds st lt h =
    monitor_loop-IsEnded config_id n 0 m rounds st (omega arith) (omega arith) h

-- Of the looks at the process the first five are made until it is there once, and one more behind
-- that; the process must be there at the last.
abbrev pub is_seen : (ℕ → Bool) → Bool
is_seen alive =
    if alive 0
    then alive 1
    else if alive 1
    then alive 2
    else if alive 2
    then alive 3
    else if alive 3
    then alive 4
    else if alive 4
    then alive 5
    else alive 5

is_present-is_seen : (alive : ℕ → Bool) → is_present alive ≡ is_seen alive
unfolding is_present
is_present-is_seen alive = ground arith

-- The thread is not asked to stop at the round, and the process is seen.
abbrev pub is_kept : Round → Bool
is_kept r = r.running && is_seen r.alive

is_kept-goes_on : (r : Round) (b : Bool) → is_kept r ≡ b → goes_on r ≡ b
is_kept-goes_on r b h = rw (is_present-is_seen r.alive) h

-- The round asks OpenVPN for its status, and something arrives.
abbrev pub is_reported : Round → Bool
is_reported r = r.opened && (r.connected && (r.sent && not (is_empty (receive [] r.pieces))))

-- The profiles that the round's report names as online.
abbrev pub named : ℕ → Round → List ℕ
named config_id r = recorded r.answers config_id r.profiles (receive [] r.pieces)

poll-unrecorded :
    (config_id : ℕ) (r : Round) (st : Store) (j : ℕ)
    → is_reported r ≡ true
    → r.answers.marked ≡ true
    → fits_id_list (named config_id r) ≡ true
    → contains j (named config_id r) ≡ false
    → open_in config_id j (poll config_id r st).sessions ≡ 0
unfolding poll
poll-unrecorded config_id r st j told marked fits gone =
    let full : is_empty (receive [] r.pieces) ≡ false = ground arith in
    let asked_it : (r.opened && (r.connected && r.sent)) ≡ true = ground arith in
    rw (asked_it, poll, full)
      (update_sessions-unrecorded r.answers config_id r.profiles (receive [] r.pieces) st j marked
        fits gone)

ended_at :
    (rounds : ℕ → Round) (i m : ℕ)
    → ((k : ℕ) → k ≤ i → is_kept (rounds k) ≡ true)
    → m ≤ suc i
    → goes_on (rounds m) ≡ false
    → m ≡ suc i
ended_at rounds i m on le off = elim (Bool-cases (leb m i)) [
  | inl early ↦
      let up : goes_on (rounds m) ≡ true = is_kept-goes_on (rounds m) true (on m (ground arith)) in
      cc
  | inr late ↦ ground arith
]

-- Let a round be the first at which the thread is asked to stop or the process is no longer seen, and
-- let the round before have got a report, with the last statement accepted and the list of the ids
-- short enough for its array. Then the thread ends, with the exit of a process that is gone just if
-- it was not asked, and a profile that the report does not name has no open session in the
-- configuration at the end.
pub monitor_thread-ended :
    (config_id n i j : ℕ) (rounds : ℕ → Round) (st : Store)
    → suc i < n
    → ((k : ℕ) → k ≤ i → is_kept (rounds k) ≡ true)
    → is_kept (rounds (suc i)) ≡ false
    → is_reported (rounds i) ≡ true
    → (rounds i).answers.marked ≡ true
    → fits_id_list (named config_id (rounds i)) ≡ true
    → contains j (named config_id (rounds i)) ≡ false
    → let (after, exit) = monitor_thread true config_id n rounds st in
      (exit ≡ exit_of (rounds (suc i))) × (open_in config_id j after.sessions ≡ 0)
unfolding sessions_after
monitor_thread-ended config_id n i j rounds st lt on off told marked fits gone =
    let run =
      monitor_thread-IsEnded config_id n (suc i) rounds st lt
        (is_kept-goes_on (rounds (suc i)) false off) in
    let at_end = ended_at rounds i run.round on run.in_time run.stops in
    let left =
      run.left ∙ ap (λ m. (sessions_after config_id rounds m st, exit_of (rounds m))) at_end in
    (
      ap (λ r. r.1) left,
      ap (λ r. open_in config_id j (r.0).sessions) left
          ∙ poll-unrecorded config_id (rounds i) (sessions_after config_id rounds i st) j told
              marked fits gone,
    )
