-- ===== src/Logger/Masked.antt =====
-- Which passwords are masked.
use ovpn_manager.Prelude.{
  find_char, ℕ, suc, ◌+◌, ◌-◌, ◌≤◌, ◌<◌, ◌≡◌, refl, ap, ◌∙◌, Bool, true, false, not, ◌&&◌, ◌||◌, [],
  ◌∷◌, ◌++◌, Option, some, ◌==◌, ltb, if◌then◌else◌, Bytes, codes, starts_with, contains, length,
  length-append, arith, Bool-cases, inl, inr,
}
use ovpn_manager.Prelude.Int.{is_space}
use ovpn_manager.Logger.{
  redact, skip_marks, behind_password, replace_password, mask_found, mask_password, mask_step,
  with_head, mask_sensitive,
}
use ovpn_manager.Logger.Ends.{take-front}

-- A text in front of the rest of a run.
unfoldable pub onto : Bytes → Option Bytes → Option Bytes
onto [] o = o
onto (c ∷ s) o = with_head c (onto s o)

-- Bytes at which no round changes anything.
unfoldable pub is_inert : Bytes → Bool
is_inert [] = true
is_inert (c ∷ s) = not (c == b'p' || c == b'-') && is_inert s

-- A word that the masking takes for a password: not empty, with no mark or white space in front, and
-- no space in it.
unfoldable pub is_password : Bytes → Bool
is_password [] = false
is_password (c ∷ s) = not (is_space c || (c == b':' || c == b'=')) && not (contains b' ' (c ∷ s))

mask_step-inert : (c : ℕ) (s : Bytes) → (c == b'p' || c == b'-') ≡ false → mask_step (c ∷ s) ≡ c ∷ s
unfolding mask_step redact mask_password starts_with
mask_step-inert c s h = ground arith

mask_sensitive-next :
    (fuel c d : ℕ) (s t : Bytes)
    → mask_step (c ∷ s) ≡ d ∷ t
    → mask_sensitive (suc fuel) (c ∷ s) ≡ with_head d (mask_sensitive fuel t)
unfolding mask_sensitive
mask_sensitive-next fuel c d s t e = rw (e, mask_sensitive) refl

mask_sensitive-inert :
    (fuel : ℕ) (s rest : Bytes)
    → is_inert s ≡ true
    → mask_sensitive (length s + fuel) (s ++ rest) ≡ onto s (mask_sensitive fuel rest)
unfolding is_inert onto
mask_sensitive-inert fuel [] rest h = let e : 0 + fuel ≡ fuel = omega arith in rw e refl
mask_sensitive-inert fuel (c ∷ s) rest h =
    let n : suc (length s) + fuel ≡ suc (length s + fuel) = omega arith in
    rw n (
      mask_sensitive-next (length s + fuel) c c (s ++ rest) (s ++ rest)
        (mask_step-inert c (s ++ rest) (ground arith))
      ∙ ap (with_head c) (mask_sensitive-inert fuel s rest (ground arith)))

find_char-append :
    (s rest : Bytes)
    → contains b' ' s ≡ false
    → find_char b' ' (s ++ (b' ' ∷ rest)) ≡ some (b' ' ∷ rest)
unfolding find_char
find_char-append [] rest h = refl
find_char-append (c ∷ s) rest h = ground (arith, find_char-append s rest)

behind_password-append :
    (s rest : Bytes) → contains b' ' s ≡ false → behind_password (s ++ (b' ' ∷ rest)) ≡ b' ' ∷ rest
unfolding behind_password
behind_password-append s rest h = rw (find_char-append s rest h, behind_password) refl

abbrev pub setting : Bytes → Bytes
setting q = codes "password=" ++ q

skip_marks-word :
    (c : ℕ) (s : Bytes)
    → (c == b' ' || (c == b':' || c == b'=')) ≡ false
    → skip_marks (c ∷ s) ≡ c ∷ s
unfolding skip_marks
skip_marks-word c s h = rw (h, skip_marks) refl

mask_found-word :
    (c : ℕ) (s t : Bytes)
    → is_space c ≡ false
    → mask_found t (c ∷ s) ≡ replace_password t (c ∷ s) (behind_password (c ∷ s))
unfolding mask_found
mask_found-word c s t h = rw (h, mask_found) refl

replace_password-word :
    (c : ℕ) (s rest : Bytes)
    → replace_password (setting (c ∷ (s ++ (b' ' ∷ rest)))) (c ∷ (s ++ (b' ' ∷ rest))) (b' ' ∷ rest)
      ≡ (if ltb (length (c ∷ s)) 20
          then setting (codes "[PASSWORD]" ++ (b' ' ∷ rest))
          else setting (c ∷ (s ++ (b' ' ∷ rest))))
unfolding replace_password
replace_password-word c s rest =
    let q = c ∷ (s ++ (b' ' ∷ rest)) in
    let size : length q - length (b' ' ∷ rest) ≡ length (c ∷ s) =
      omega (arith, length-append {0} s (b' ' ∷ rest)) in
    let front = take-front (codes "password=") q (setting q) refl in
    elim (Bool-cases (ltb (length (c ∷ s)) 20)) [
      | inl short ↦ ground (arith, size, front)
      | inr long ↦ ground (arith, size, front)
    ]

-- The round at the word.
mask_step-password :
    (s rest : Bytes)
    → is_password s ≡ true
    → mask_step (setting (s ++ (b' ' ∷ rest))) ≡ (
        if ltb (length s) 20
        then setting (codes "[PASSWORD]" ++ (b' ' ∷ rest))
        else setting (s ++ (b' ' ∷ rest)))
unfolding mask_step redact mask_password starts_with is_password skip_marks
mask_step-password [] rest h = cc
mask_step-password (c ∷ s) rest h =
    let q = c ∷ (s ++ (b' ' ∷ rest)) in
    ap (mask_found (setting q)) (skip_marks-word c (s ++ (b' ' ∷ rest)) (ground arith))
    ∙ mask_found-word c (s ++ (b' ' ∷ rest)) (setting q) (ground arith)
    ∙ ap (replace_password (setting q) q) (behind_password-append (c ∷ s) rest (ground arith))
    ∙ replace_password-word c s rest

-- Behind "password=", a word that ends at a space and has no mark or white space in front: one of less
-- than 20 bytes is replaced; one of 20 or more that has no 'p' and no '-' is written as it is.
pub mask_sensitive-password :
    (fuel : ℕ) (s rest : Bytes)
    → is_password s ≡ true
    → (length s < 20
        → mask_sensitive (suc (18 + fuel)) (setting (s ++ (b' ' ∷ rest)))
          ≡ onto (setting (codes "[PASSWORD]")) (mask_sensitive fuel (b' ' ∷ rest)))
      × (20 ≤ length s
          → is_inert s ≡ true
          → mask_sensitive (suc (8 + (length s + fuel))) (setting (s ++ (b' ' ∷ rest)))
            ≡ onto (setting s) (mask_sensitive fuel (b' ' ∷ rest)))
unfolding onto is_inert
mask_sensitive-password fuel s rest h =
    let step = mask_step-password s rest h in
    (
      λ short.
          let is : ltb (length s) 20 ≡ true = ground arith in
          mask_sensitive-next (18 + fuel) b'p' b'p' _ (codes "assword=[PASSWORD]" ++ (b' ' ∷ rest))
            (step ∙ rw is refl)
          ∙ ap (with_head b'p')
              (mask_sensitive-inert fuel (codes "assword=[PASSWORD]") (b' ' ∷ rest) refl),
      λ long inert.
          let is : ltb (length s) 20 ≡ false = ground arith in
          mask_sensitive-next (8 + (length s + fuel)) b'p' b'p' _
            (codes "assword=" ++ (s ++ (b' ' ∷ rest))) (step ∙ rw is refl)
          ∙ ap (with_head b'p') (
              mask_sensitive-inert (length s + fuel) (codes "assword=") (s ++ (b' ' ∷ rest)) refl
              ∙ ap (onto (codes "assword=")) (mask_sensitive-inert fuel s (b' ' ∷ rest) inert)),
    )
