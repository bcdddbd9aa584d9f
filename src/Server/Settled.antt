-- ===== src/Server/Settled.antt =====
-- The descriptors of the server are given back on every path.
use ovpn_manager.Prelude.{
  ℕ, suc, ◌+◌, ◌≡◌, refl, Bool, true, false, List, [], ◌∷◌, ◌++◌, ◌==◌, if◌then◌else◌, arith,
  Bool-cases, inl, inr,
}
use ovpn_manager.Prelude.Int.{ℤ, is_pos}
use ovpn_manager.Server.Listen.{
  Effect, make, close_socket, unlink_path, handed, closed, Answers, Round, no_memory, not_accepted,
  accepted, accept_loop, unlink_unless, listen, bind_tcp, bind_unix, prepare_unix,
  start_socket_server,
}

-- How often the server's socket is made, how often it is closed, and how often the descriptor `fd` is
-- handed to a thread or closed.
unfoldable pub makes : List Effect → ℕ
makes [] = 0
makes (make ∷ es) = suc (makes es)
makes (e ∷ es) = makes es

unfoldable pub closes : List Effect → ℕ
closes [] = 0
closes (close_socket ∷ es) = suc (closes es)
closes (e ∷ es) = closes es

unfoldable pub settled : ℕ → List Effect → ℕ
settled fd [] = 0
settled fd (handed x ∷ es) = (if x == fd then 1 else 0) + settled fd es
settled fd (closed x ∷ es) = (if x == fd then 1 else 0) + settled fd es
settled fd (e ∷ es) = settled fd es

-- How often the loop accepts the descriptor.
unfoldable pub accepts : ℕ → List Round → ℕ
accepts fd [] = 0
accepts fd (no_memory ∷ rs) = accepts fd rs
accepts fd (not_accepted true ∷ rs) = 0
accepts fd (not_accepted false ∷ rs) = accepts fd rs
accepts fd (accepted x thread ∷ rs) = (if x == fd then 1 else 0) + accepts fd rs

-- A loop and what stands behind it.
module _ (rest : List Effect) where
  makes-accept_loop : (rs : List Round) → makes (accept_loop rs ++ rest) ≡ makes rest
  unfolding makes accept_loop
  makes-accept_loop [] = refl
  makes-accept_loop (no_memory ∷ rs) = makes-accept_loop rs
  makes-accept_loop (not_accepted true ∷ rs) = refl
  makes-accept_loop (not_accepted false ∷ rs) = makes-accept_loop rs
  makes-accept_loop (accepted fd true ∷ rs) = makes-accept_loop rs
  makes-accept_loop (accepted fd false ∷ rs) = makes-accept_loop rs

  closes-accept_loop : (rs : List Round) → closes (accept_loop rs ++ rest) ≡ closes rest
  unfolding closes accept_loop
  closes-accept_loop [] = refl
  closes-accept_loop (no_memory ∷ rs) = closes-accept_loop rs
  closes-accept_loop (not_accepted true ∷ rs) = refl
  closes-accept_loop (not_accepted false ∷ rs) = closes-accept_loop rs
  closes-accept_loop (accepted fd true ∷ rs) = closes-accept_loop rs
  closes-accept_loop (accepted fd false ∷ rs) = closes-accept_loop rs

  settled-accept_loop :
      (fd : ℕ) (rs : List Round)
      → settled fd (accept_loop rs ++ rest) ≡ accepts fd rs + settled fd rest
  unfolding settled accepts accept_loop
  settled-accept_loop fd [] = omega arith
  settled-accept_loop fd (no_memory ∷ rs) = settled-accept_loop fd rs
  settled-accept_loop fd (not_accepted true ∷ rs) = omega arith
  settled-accept_loop fd (not_accepted false ∷ rs) = settled-accept_loop fd rs
  settled-accept_loop fd (accepted x true ∷ rs) = omega (arith, settled-accept_loop fd rs)
  settled-accept_loop fd (accepted x false ∷ rs) = omega (arith, settled-accept_loop fd rs)

-- What a part of the start does to the descriptors: the socket is closed once and not made, and each
-- accepted descriptor is settled as often as it is accepted, if the loop is reached.
abbrev IsSettled : List Round → List Effect × Bool → Type 0
IsSettled rounds r =
    (makes r.0 ≡ 0)
    × (closes r.0 ≡ 1)
    × ((fd : ℕ) → settled fd r.0 ≡ (if r.1 then accepts fd rounds else 0))

listen-IsSettled :
    (a : Answers) (tcp : Bool) (rounds : List Round) → IsSettled rounds (listen a tcp rounds)
unfolding listen unlink_unless makes closes settled
listen-IsSettled a true rounds = elim (Bool-cases a.listened) [
  | inl up ↦
      let rest = close_socket ∷ [] in
      rw (up, listen)
        (
          makes-accept_loop rest rounds,
          closes-accept_loop rest rounds,
          λ fd. omega (arith, settled-accept_loop rest fd rounds),
        )
  | inr down ↦ rw (down, listen) (refl, refl, λ fd. refl)
]
listen-IsSettled a false rounds = elim (Bool-cases a.listened) [
  | inl up ↦
      let rest = close_socket ∷ unlink_path ∷ [] in
      rw (up, listen)
        (
          makes-accept_loop rest rounds,
          closes-accept_loop rest rounds,
          λ fd. omega (arith, settled-accept_loop rest fd rounds),
        )
  | inr down ↦ rw (down, listen) (refl, refl, λ fd. refl)
]

bind_tcp-IsSettled : (a : Answers) (rounds : List Round) → IsSettled rounds (bind_tcp a rounds)
unfolding bind_tcp makes closes settled
bind_tcp-IsSettled a rounds = elim (Bool-cases a.valid_host) [
  | inr bad ↦ rw (bad, bind_tcp) (refl, refl, λ fd. refl)
  | inl good ↦ (elim (Bool-cases a.bound) [
    | inl bound ↦ rw (good, bind_tcp, bound) (listen-IsSettled a true rounds)
    | inr taken ↦ rw (good, bind_tcp, taken) (refl, refl, λ fd. refl)
  ])
]

bind_unix-IsSettled : (a : Answers) (rounds : List Round) → IsSettled rounds (bind_unix a rounds)
unfolding bind_unix makes closes settled
bind_unix-IsSettled a rounds = elim (Bool-cases a.bound) [
  | inl bound ↦ rw (bound, bind_unix) (listen-IsSettled a false rounds)
  | inr taken ↦ rw (taken, bind_unix) (refl, refl, λ fd. refl)
]

prepare_unix-IsSettled :
    (a : Answers) (rounds : List Round) → IsSettled rounds (prepare_unix a rounds)
unfolding prepare_unix makes closes settled
prepare_unix-IsSettled a rounds = elim (Bool-cases a.dir_there) [
  | inl there ↦ rw (there, prepare_unix) (bind_unix-IsSettled a rounds)
  | inr missing ↦ (elim (Bool-cases a.dir_made) [
    | inl made ↦ rw (missing, prepare_unix, made) (bind_unix-IsSettled a rounds)
    | inr failed ↦ rw (missing, prepare_unix, failed) (refl, refl, λ fd. refl)
  ])
]

-- On every path of start_socket_server, errors included, the server's socket is closed as often as it
-- was made, and each descriptor is handed to a thread or closed as often as the loop accepted it,
-- where 0 is returned, and never otherwise.
pub start_socket_server-settled :
    (a : Answers) (listen_port : ℤ) (rounds : List Round)
    → let (es, success) = start_socket_server a listen_port rounds in
      (closes es ≡ makes es)
      × ((fd : ℕ) → settled fd es ≡ (if success then accepts fd rounds else 0))
unfolding start_socket_server makes closes settled
start_socket_server-settled a listen_port rounds = elim (Bool-cases a.made) [
  | inr failed ↦ rw (failed, start_socket_server) (refl, λ fd. refl)
  | inl made ↦ (elim (Bool-cases (is_pos listen_port)) [
    | inl tcp ↦
        let (none_made, one_closed, rest) = bind_tcp-IsSettled a rounds in
        rw (made, start_socket_server, tcp) (omega (arith, none_made, one_closed), rest)
    | inr path ↦
        let (none_made, one_closed, rest) = prepare_unix-IsSettled a rounds in
        rw (made, start_socket_server, path) (omega (arith, none_made, one_closed), rest)
  ])
]
