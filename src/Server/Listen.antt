-- ===== src/Server/Listen.antt =====
-- master/socket_server.c, start_socket_server: the sockets. What the system answers is an argument.
use ovpn_manager.Prelude.{ℕ, Bool, true, false, List, [], ◌∷◌, ◌++◌, if◌then◌else◌}
use ovpn_manager.Prelude.Int.{ℤ, is_pos}

-- What is done, in order: to the server's socket, to its path, and to the descriptor of a connection,
-- which is handed to a thread or closed.
pub data Effect : Type 0 where
  make close_socket unlink_path make_dir set_mode : Effect
  handed closed : ℕ → Effect

-- `valid_host`: inet_pton. `dir_there`: stat of the socket's directory. `bound`: bind returns 0.
pub record Answers : Type 0 where
  pub made : Bool
  pub valid_host : Bool
  pub dir_there : Bool
  pub dir_made : Bool
  pub bound : Bool
  pub listened : Bool

-- One round of the loop: malloc fails; accept fails, and whether a shutdown is requested then; or a
-- connection, and whether pthread_create returns 0.
pub data Round : Type 0 where
  no_memory : Round
  not_accepted : Bool → Round
  accepted : ℕ → Bool → Round

-- The loop, which ends with the list when a shutdown is requested at its start.
unfoldable pub accept_loop : List Round → List Effect
accept_loop [] = []
accept_loop (no_memory ∷ rs) = accept_loop rs
accept_loop (not_accepted true ∷ rs) = []
accept_loop (not_accepted false ∷ rs) = accept_loop rs
accept_loop (accepted fd true ∷ rs) = handed fd ∷ accept_loop rs
accept_loop (accepted fd false ∷ rs) = closed fd ∷ accept_loop rs

unfoldable pub unlink_unless : Bool → List Effect
unlink_unless use_tcp = if use_tcp then [] else unlink_path ∷ []

-- From `listen` on; the result is true for 0.
unfoldable pub listen : Answers → Bool → List Round → List Effect × Bool
unfolding accept_loop unlink_unless
listen a use_tcp rounds =
    if a.listened
    then (accept_loop rounds ++ (close_socket ∷ unlink_unless use_tcp), true)
    else (close_socket ∷ unlink_unless use_tcp, false)

abbrev pub behind : List Effect → List Effect × Bool → List Effect × Bool
behind es r = (es ++ r.0, r.1)

unfoldable pub bind_tcp : Answers → List Round → List Effect × Bool
unfolding listen
bind_tcp a rounds =
    if a.valid_host
    then (if a.bound then listen a true rounds else (close_socket ∷ [], false))
    else (close_socket ∷ [], false)

-- The result of chmod is only logged.
unfoldable pub bind_unix : Answers → List Round → List Effect × Bool
unfolding listen
bind_unix a rounds =
    if a.bound then behind (set_mode ∷ []) (listen a false rounds) else (close_socket ∷ [], false)

unfoldable pub prepare_unix : Answers → List Round → List Effect × Bool
unfolding bind_unix
prepare_unix a rounds =
    if a.dir_there
    then behind (unlink_path ∷ []) (bind_unix a rounds)
    else if a.dir_made
    then behind (unlink_path ∷ make_dir ∷ []) (bind_unix a rounds)
    else (unlink_path ∷ close_socket ∷ [], false)

-- TCP where the configured port is positive.
unfoldable pub start_socket_server : Answers → ℤ → List Round → List Effect × Bool
unfolding bind_tcp prepare_unix
start_socket_server a listen_port rounds =
    if a.made
    then (if is_pos listen_port
        then behind (make ∷ []) (bind_tcp a rounds)
        else behind (make ∷ []) (prepare_unix a rounds))
    else ([], false)
