-- ===== src/Logger/Ends.antt =====
-- mask_sensitive ends, and how much longer it makes a text.
use ovpn_manager.Prelude.{
  find_text, ℕ, zero, suc, ◌+◌, ◌-◌, ◌*◌, ◌≤◌, ◌<◌, ◌≡◌, refl, sym, ap, ◌∙◌, subst, ◌⊎◌, inl, inr,
  true, ◌&&◌, [], ◌∷◌, ◌++◌, some, ltb, leb, Bytes, codes, starts_with, take, drop, length,
  length-append, length-drop, arith, Bool-cases, Option-cases,
}
use ovpn_manager.Prelude.Int.{is_space}
use ovpn_manager.Logger.{
  redacted, line_end, replace_block, redact, skip_marks, behind_password, replace_password,
  mask_found, mask_password, mask_step, mask_sensitive,
}
use ovpn_manager.Logger.Texts.{
  ps, weight, ps-append, IsEnd, drop-IsEnd, IsEnd-trans, IsEnd-le, find_text-IsEnd,
  skip_marks-IsEnd, line_end-IsEnd, behind_password-IsEnd,
}

-- What a round makes of the text from `p` on: not empty, and lighter behind its first byte.
abbrev IsLighter : ℕ → Bytes → Bytes → Type 0
IsLighter c s after = (d : ℕ) × (t : Bytes) × (after ≡ d ∷ t) × (weight t < weight (c ∷ s))

same : (c : ℕ) (s : Bytes) → IsLighter c s (c ∷ s)
unfolding ps
same c s = (c, s, refl, omega arith)

redact_cases :
    (c : ℕ) (s : Bytes)
    → (redact (c ∷ s) ≡ c ∷ s)
      ⊎ ((b : Bytes) × (redact (c ∷ s) ≡ redacted ++ b)
          × IsEnd b (c ∷ s)
          × (length b + 23 ≤ length (c ∷ s)))
unfolding redact replace_block
redact_cases c s = elim (Bool-cases (starts_with (codes "-----BEGIN") (c ∷ s))) [
  | inr other ↦ inl (rw (other, redact) refl)
  | inl begins ↦ (elim (Option-cases (find_text (codes "-----END") (c ∷ s))) [
    | inl e ↦ inl (rw (begins, redact, e) refl)
    | inr (t, e) ↦
        let b = line_end t in
        let fits = leb 23 (length (c ∷ s) - length b) in
        (elim (Bool-cases fits) [
          | inr short ↦ inl (rw (begins, redact, e, short) refl)
          | inl enough ↦ inr (
            b,
            rw (begins, redact, e, enough) refl,
            IsEnd-trans b t (c ∷ s) (line_end-IsEnd t)
                (find_text-IsEnd (codes "-----END") (c ∷ s) t e),
            ground arith,
          )
        ])
  ])
]

mask_password-redacted : (b : Bytes) → mask_password (redacted ++ b) ≡ redacted ++ b
unfolding mask_password starts_with
mask_password-redacted b = refl

redacted-IsLighter :
    (c : ℕ) (s b : Bytes)
    → IsEnd b (c ∷ s)
    → length b + 23 ≤ length (c ∷ s)
    → IsLighter c s (redacted ++ b)
unfolding ps
redacted-IsLighter c s b e h =
    (b'[', drop 1 redacted ++ b, refl, omega (arith, IsEnd-le b (c ∷ s) e))

take-append_left : (front q : Bytes) → take (length front) (front ++ q) ≡ front
take-append_left [] q = refl
take-append_left (x ∷ front) q = ap (◌∷◌ x) (take-append_left front q)

pub take-front : (front q s : Bytes) → s ≡ front ++ q → take (length s - length q) s ≡ front
take-front front q s e =
    let n : length s - length q ≡ length front =
      omega (arith, ap length e, length-append {0} front q) in
    rw n (subst (λ t. take (length front) t ≡ front) (sym e) (take-append_left front q))

replaced-IsLighter :
    (c : ℕ) (s front q r : Bytes)
    → c ∷ s ≡ front ++ q
    → (f : Bytes) × (front ≡ b'p' ∷ f)
    → IsEnd r q
    → length r < length q
    → IsLighter c s (front ++ (codes "[PASSWORD]" ++ r))
unfolding ps
replaced-IsLighter c s front q r e (f, e') h lt = (
  b'p',
  f ++ (codes "[PASSWORD]" ++ r),
  ap (λ t. t ++ (codes "[PASSWORD]" ++ r)) e',
  omega (
    arith,
    ap length e,
    ap ps e,
    ap length e',
    ap ps e',
    length-append {0} front q,
    ps-append front q,
    length-append {0} f (codes "[PASSWORD]" ++ r),
    ps-append f (codes "[PASSWORD]" ++ r),
    IsEnd-le r q h,
  ),
)

-- The text behind "password" and the marks is an end, behind a front that starts with its 'p'.
starts_with-p :
    (c : ℕ) (s front q : Bytes)
    → starts_with (codes "password") (c ∷ s) ≡ true
    → c ∷ s ≡ front ++ q
    → length q < length (c ∷ s)
    → (f : Bytes) × (front ≡ b'p' ∷ f)
unfolding starts_with
starts_with-p c s [] q h e lt = absurd (omega (arith, ap length e))
starts_with-p c s (d ∷ f) q h e lt =
    (f, ap (λ x. x ∷ f) (let is : c ≡ b'p' = ground arith in let at : c ≡ d = cc in sym at ∙ is))

replace_password-IsLighter :
    (c : ℕ) (s q r : Bytes)
    → starts_with (codes "password") (c ∷ s) ≡ true
    → IsEnd q (c ∷ s)
    → length q < length (c ∷ s)
    → IsEnd r q
    → IsLighter c s (replace_password (c ∷ s) q r)
unfolding replace_password
replace_password-IsLighter c s q r h (front, e) lt end =
    let size = length q - length r in
    elim (Bool-cases (ltb 0 size && ltb size 20)) [
      | inr other ↦ rw (other, replace_password) (same c s)
      | inl short ↦
          let less : length r < length q = ground arith in
          rw (short, replace_password)
            (subst (λ t. IsLighter c s (t ++ (codes "[PASSWORD]" ++ r)))
              (sym (take-front front q (c ∷ s) e))
              (replaced-IsLighter c s front q r e (starts_with-p c s front q h e lt) end less))
    ]

mask_found-IsLighter :
    (c : ℕ) (s q : Bytes)
    → starts_with (codes "password") (c ∷ s) ≡ true
    → IsEnd q (c ∷ s)
    → length q < length (c ∷ s)
    → IsLighter c s (mask_found (c ∷ s) q)
unfolding mask_found
mask_found-IsLighter c s [] h end lt = same c s
mask_found-IsLighter c s (x ∷ q) h end lt = elim (Bool-cases (is_space x)) [
  | inl space ↦ rw (space, mask_found) (same c s)
  | inr other ↦
      rw (other, mask_found)
        (replace_password-IsLighter c s (x ∷ q) (behind_password (x ∷ q)) h end lt
          (behind_password-IsEnd (x ∷ q)))
]

mask_password-IsLighter : (c : ℕ) (s : Bytes) → IsLighter c s (mask_password (c ∷ s))
unfolding mask_password
mask_password-IsLighter c s = elim (Bool-cases (starts_with (codes "password") (c ∷ s))) [
  | inr other ↦ rw (other, mask_password) (same c s)
  | inl named ↦
      let q = skip_marks (drop 7 s) in
      let inner = skip_marks-IsEnd (drop 7 s) in
      let end = IsEnd-trans q (drop 7 s) (c ∷ s) inner (drop-IsEnd 8 (c ∷ s)) in
      rw (named, mask_password)
        (mask_found-IsLighter c s q named end
          (omega (arith, IsEnd-le q (drop 7 s) inner, length-drop {0} 7 s)))
]

mask_step-IsLighter : (c : ℕ) (s : Bytes) → IsLighter c s (mask_step (c ∷ s))
unfolding mask_step
mask_step-IsLighter c s = elim (redact_cases c s) [
  | inl e ↦ rw e (mask_password-IsLighter c s)
  | inr (b, e, end, fits) ↦
      rw e
        (subst (IsLighter c s) (sym (mask_password-redacted b)) (redacted-IsLighter c s b end fits))
]

-- mask_sensitive ends on every text, within one round for each byte and nine more for each 'p', and
-- makes it longer by at most nine bytes for each 'p'.
pub mask_sensitive-ends :
    (fuel : ℕ) (s : Bytes)
    → weight s < fuel
    → (t : Bytes) × (mask_sensitive fuel s ≡ some t) × (length t ≤ length s + 9 * ps s)
unfolding mask_sensitive
mask_sensitive-ends zero s h = absurd (omega arith)
mask_sensitive-ends (suc fuel) [] h = ([], refl, omega arith)
mask_sensitive-ends (suc fuel) (c ∷ s) h =
    let (d, t, e, less) = mask_step-IsLighter c s in
    let (u, done, size) = mask_sensitive-ends fuel t (omega arith) in
    (d ∷ u, rw (e, mask_sensitive, done) refl, omega arith)
