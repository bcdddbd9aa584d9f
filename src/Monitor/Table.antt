-- ===== src/Monitor/Table.antt =====
-- What a context reads after a write, and how often an id stands in the running list.
use ovpn_manager.Prelude.{
  ℕ, ◌+◌, ◌-◌, ◌≤◌, ◌≡◌, refl, Bool, false, List, [], ◌∷◌, ◌++◌, ◌==◌, if◌then◌else◌, length, arith,
}
use ovpn_manager.Monitor.{
  Context, get_monitor_ctx, is_running, is_alive, set_context, last_or, but_last, move_last,
  remove_running,
}

pub is_running-get_monitor_ctx :
    (j id : ℕ) (ms : List Context) → is_running j (get_monitor_ctx id ms) ≡ is_running j ms
unfolding is_running get_monitor_ctx
is_running-get_monitor_ctx j id [] = ground arith
is_running-get_monitor_ctx j id (m ∷ ms) = ground (arith, is_running-get_monitor_ctx j id ms)

pub is_alive-get_monitor_ctx :
    (j id : ℕ) (ms : List Context) → is_alive j (get_monitor_ctx id ms) ≡ is_alive j ms
unfolding is_alive get_monitor_ctx
is_alive-get_monitor_ctx j id [] = ground arith
is_alive-get_monitor_ctx j id (m ∷ ms) = ground (arith, is_alive-get_monitor_ctx j id ms)

-- The context of `id` is there, so that a write finds it.
pub is_running-set :
    (j id : ℕ) (run live : Bool) (ms : List Context)
    → is_running j (set_context id run live (get_monitor_ctx id ms))
      ≡ (if j == id then run else is_running j ms)
unfolding is_running get_monitor_ctx set_context
is_running-set j id run live [] = ground arith
is_running-set j id run live (m ∷ ms) = ground (arith, is_running-set j id run live ms)

pub is_alive-set :
    (j id : ℕ) (run live : Bool) (ms : List Context)
    → is_alive j (set_context id run live (get_monitor_ctx id ms))
      ≡ (if j == id then live else is_alive j ms)
unfolding is_alive get_monitor_ctx set_context
is_alive-set j id run live [] = ground arith
is_alive-set j id run live (m ∷ ms) = ground (arith, is_alive-set j id run live ms)

-- A thread that ends leaves `running` as it was.
pub is_running-exit :
    (j id : ℕ) (ms : List Context)
    → is_running j (set_context id (is_running id ms) false ms) ≡ is_running j ms
unfolding is_running set_context
is_running-exit j id [] = refl
is_running-exit j id (m ∷ ms) = ground (arith, is_running-exit j id ms)

pub is_alive-exit :
    (j id : ℕ) (run : Bool) (ms : List Context)
    → is_alive j (set_context id run false ms) ≡ (if j == id then false else is_alive j ms)
unfolding is_alive set_context
is_alive-exit j id run [] = ground arith
is_alive-exit j id run (m ∷ ms) = ground (arith, is_alive-exit j id run ms)

abbrev pub count : ℕ → List ℕ → ℕ
count j [] = 0
count j (x ∷ xs) = (if x == j then 1 else 0) + count j xs

pub count-append : (j : ℕ) (xs ys : List ℕ) → count j (xs ++ ys) ≡ count j xs + count j ys
count-append j [] ys = omega arith
count-append j (x ∷ xs) ys = omega (arith, count-append j xs ys)

count-last_or : (j x : ℕ) (xs : List ℕ) → count j (last_or x xs ∷ but_last x xs) ≡ count j (x ∷ xs)
unfolding last_or but_last
count-last_or j x [] = refl
count-last_or j x (y ∷ ys) = omega (arith, count-last_or j y ys)

count-move_last : (j : ℕ) (xs : List ℕ) → count j (move_last xs) ≡ count j xs
unfolding move_last
count-move_last j [] = refl
count-move_last j (x ∷ xs) = count-last_or j x xs

-- The removal takes out one occurrence of `id`, and nothing else.
pub count-remove_running :
    (j id : ℕ) (xs : List ℕ)
    → count j (remove_running id xs) ≡ count j xs - (if id == j then 1 else 0)
unfolding remove_running
count-remove_running j id [] = ground arith
count-remove_running j id (x ∷ xs) =
    ground (arith, count-remove_running j id xs, count-move_last j xs)

length-but_last : (x : ℕ) (xs : List ℕ) → length (but_last x xs) ≡ length xs
unfolding but_last
length-but_last x [] = refl
length-but_last x (y ∷ ys) = omega (arith, length-but_last y ys)

length-move_last : (xs : List ℕ) → length (move_last xs) ≡ length xs
unfolding move_last
length-move_last [] = refl
length-move_last (x ∷ xs) = omega (arith, length-but_last x xs)

pub length-remove_running-le : (id : ℕ) (xs : List ℕ) → length (remove_running id xs) ≤ length xs
unfolding remove_running
length-remove_running-le id [] = omega arith
length-remove_running-le id (x ∷ xs) =
    ground (arith, length-remove_running-le id xs, length-move_last xs)
