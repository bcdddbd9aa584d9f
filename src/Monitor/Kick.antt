-- ===== src/Monitor/Kick.antt =====
-- master/monitor.c, kick_client: the command on the management socket.
use ovpn_manager.Prelude.{
  ℕ, zero, suc, ◌+◌, ◌≤◌, ◌<◌, ◌≡◌, refl, sym, ap, ◌∙◌, Bool, true, false, ◌&&◌, List, [], ◌∷◌,
  ◌++◌, ◌==◌, if◌then◌else◌, Bytes, codes, concat, contains, take, length, length-append,
  take-of_le, append-nil, append_assoc, arith,
}
use ovpn_manager.Sessions.Report.{lines_from}

-- The socket is made, it is connected, and it takes the command.
pub record Answers : Type 0 where
  pub opened : Bool
  pub connected : Bool
  pub sent : Bool

-- `cmd`, 512 bytes with its NUL.
unfoldable pub kill_command : Bytes → Bytes
kill_command target = take 511 (concat (codes "kill " ∷ target ∷ codes "\n" ∷ []))

-- What is sent, and whether 0 is returned.
unfoldable pub kick_client : Answers → Bytes → List Bytes × Bool
kick_client a target =
    if a.opened && (a.connected && a.sent) then (kill_command target ∷ [], true) else ([], false)

lines_from-append :
    (cur t rest : Bytes)
    → contains b'\n' t ≡ false
    → lines_from cur (t ++ (b'\n' ∷ rest)) ≡ (cur ++ t) ∷ lines_from [] rest
unfolding lines_from
lines_from-append cur [] rest h = ap (λ c. c ∷ lines_from [] rest) (sym (append-nil cur))
lines_from-append cur (c ∷ t) rest h =
    let other : (c == b'\n') ≡ false = ground arith in
    rw other (
      lines_from-append (cur ++ c ∷ []) t rest (ground arith)
      ∙ ap (λ l. l ∷ lines_from [] rest) (append_assoc cur (c ∷ []) t))

contains-append_false :
    (j : ℕ) (xs ys : Bytes)
    → contains j xs ≡ false
    → contains j ys ≡ false
    → contains j (xs ++ ys) ≡ false
contains-append_false j [] ys h k = k
contains-append_false j (x ∷ xs) ys h k = ground (arith, contains-append_false j xs ys)

take-append {ℓ} :
    {A : Type ℓ} (n : ℕ) (xs ys : List A) → n ≤ length xs → take n (xs ++ ys) ≡ take n xs
take-append zero xs ys h = refl
take-append (suc n) [] ys h = absurd (omega arith)
take-append (suc n) (x ∷ xs) ys h = ap (◌∷◌ x) (take-append n xs ys (omega arith))

contains-take : (j n : ℕ) (xs : Bytes) → contains j xs ≡ false → contains j (take n xs) ≡ false
contains-take j zero xs h = refl
contains-take j (suc n) [] h = refl
contains-take j (suc n) (x ∷ xs) h = ground (arith, contains-take j n xs)

-- A target of at most 505 bytes without a newline is one line to the management interface, the
-- command with the target. A newline in such a target ends that command, and what stands behind it
-- is read as further commands. For a longer target without a newline the line is not ended.
pub kill_command-lines :
    (t u : Bytes)
    → contains b'\n' t ≡ false
    → (length t ≤ 505 → lines_from [] (kill_command t) ≡ (codes "kill " ++ t) ∷ [])
      × (length t + length u ≤ 504
          → lines_from [] (kill_command (t ++ (b'\n' ∷ u)))
            ≡ (codes "kill " ++ t) ∷ lines_from [] (u ++ (b'\n' ∷ [])))
      × (505 < length t → contains b'\n' (kill_command t) ≡ false)
unfolding kill_command lines_from
kill_command-lines t u h = (
  λ fits.
      rw (take-of_le 506 (t ++ (b'\n' ∷ [])) (omega (arith, length-append {0} t (b'\n' ∷ [])))) (
        lines_from-append [] (codes "kill " ++ t) []
          (contains-append_false _ (codes "kill ") t refl h)),
  λ fits.
      rw
        (
          append_assoc t (b'\n' ∷ u) (b'\n' ∷ []),
          take-of_le 506 (t ++ (b'\n' ∷ (u ++ (b'\n' ∷ [])))) (
              omega (
                arith,
                length-append {0} t (b'\n' ∷ (u ++ (b'\n' ∷ []))),
                length-append {0} u (b'\n' ∷ []),
              )),
        )
        (lines_from-append [] (codes "kill " ++ t) (u ++ (b'\n' ∷ []))
          (contains-append_false _ (codes "kill ") t refl h)),
  λ long. rw (take-append 506 t (b'\n' ∷ []) (omega arith)) (contains-take _ 506 t h),
)
