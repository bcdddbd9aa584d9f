-- ===== src/Monitor/Thread/Receive.antt =====
-- What is in the buffer behind the loop around `recv`.
use ovpn_manager.Prelude.{
  ℕ, zero, suc, min, leb, subst, ◌-◌, ◌+◌, ◌≤◌, ◌≡◌, refl, sym, ap, ◌∙◌, ◌⊎◌, inl, inr, true, false,
  List, [], ◌∷◌, ◌++◌, Bytes, is_empty, take, drop, length, length-append, length-take,
  take-append-drop, take-of_le, concat, All, append-nil, append_assoc, arith, Bool-cases,
}
use ovpn_manager.Monitor.Thread.{is_complete, buffer_size, receive}

-- What the buffer holds when the loop ends, of what arrived.
pub record IsReceived (arrived buffer : Bytes) : Type 0 where
  pub rest : Bytes
  pub front : arrived ≡ buffer ++ rest
  pub fits : length buffer ≤ buffer_size
  pub ended : (is_complete buffer ≡ true) ⊎ ((length buffer ≡ buffer_size) ⊎ (arrived ≡ buffer))

length-full : (n : ℕ) (c : Bytes) → is_empty c ≡ false → is_empty (take n c) ≡ true → n ≡ 0
length-full zero c h k = refl
length-full (suc n) [] h k = cc
length-full (suc n) (x ∷ c) h k = cc

-- Nothing is added to a full buffer.
receive-full :
    (buffer : Bytes) (pieces : List Bytes)
    → buffer_size - length buffer ≡ 0
    → receive buffer pieces ≡ buffer
unfolding receive
receive-full buffer [] full = refl
receive-full buffer (c ∷ cs) full = rw full refl

regroup :
    (n : ℕ) (buffer c more : Bytes)
    → buffer ++ (c ++ more) ≡ (buffer ++ take n c) ++ (drop n c ++ more)
regroup n buffer c more =
    ap (λ t. buffer ++ (t ++ more)) (sym (take-append-drop n c))
    ∙ ap (λ t. buffer ++ t) (append_assoc (take n c) (drop n c) more)
    ∙ sym (append_assoc buffer (take n c) (drop n c ++ more))

length-next :
    (buffer c : Bytes)
    → length buffer ≤ buffer_size
    → length (buffer ++ take (buffer_size - length buffer) c)
      ≡ min buffer_size (length buffer + length c)
length-next buffer c fits =
    let room = buffer_size - length buffer in
    omega (arith, length-append {0} buffer (take room c), length-take {0} room c)

-- However the report is cut into pieces, the buffer holds the front of what arrives, and at most
-- 16383 bytes of it. The loop ends with a complete report, or with a full buffer, or with all that
-- arrived.
pub receive-IsReceived :
    (buffer : Bytes) (pieces : List Bytes)
    → All (λ c. is_empty c ≡ false) pieces
    → length buffer ≤ buffer_size
    → IsReceived (buffer ++ concat pieces) (receive buffer pieces)
unfolding receive
receive-IsReceived buffer [] full fits = record {
  rest = [];
  front = sym (append-nil (buffer ++ [])) ∙ ap (λ t. t ++ []) (append-nil buffer);
  fits = fits;
  ended = inr (inr (append-nil buffer));
}
receive-IsReceived buffer (c ∷ cs) full fits =
    let room = buffer_size - length buffer in
    let next = buffer ++ take room c in
    let size = length-next buffer c fits in
    elim (Bool-cases (is_empty (take room c))) [
      | inl none_left ↦
          rw (none_left, receive)
            (record {
              rest = c ++ concat cs;
              front = refl;
              fits = fits;
              ended = inr (inl (let e = length-full room c full.0 none_left in omega arith));
            })
      | inr some_left ↦ (elim (Bool-cases (is_complete next)) [
        | inl complete ↦
            rw (some_left, receive, complete)
              (record {
                rest = drop room c ++ concat cs;
                front = regroup room buffer c (concat cs);
                fits = omega (arith, size);
                ended = inl complete;
              })
        | inr partial ↦ (elim (Bool-cases (leb (length c) room)) [
          | inl whole ↦
              let le : length c ≤ room = ground arith in
              let same : take room c ≡ c = take-of_le room c le in
              rw (some_left, receive, partial)
                (rw same (
                  subst (λ t. IsReceived t (receive (buffer ++ c) cs))
                    (append_assoc buffer c (concat cs))
                    (receive-IsReceived (buffer ++ c) cs full.1
                      (omega (arith, le, fits, length-append {0} buffer c)))))
          | inr cut ↦
              let at_end : length next ≡ buffer_size = ground (arith, size) in
              rw (some_left, receive, partial)
                (rw (receive-full next cs (omega (arith, at_end))) (record {
                  rest = drop room c ++ concat cs;
                  front = regroup room buffer c (concat cs);
                  fits = omega (arith, at_end);
                  ended = inr (inl at_end);
                }))
        ])
      ])
    ]
