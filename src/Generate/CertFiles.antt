-- ===== src/Generate/CertFiles.antt =====
-- What write_cert_file writes.
use ovpn_manager.Prelude.{
  ℕ, ◌≡◌, refl, sym, ◌∙◌, subst, ==_iff, ◌↔◌, ◌⊎◌, inl, inr, Bool, true, false, ◌&&◌, [], ◌∷◌, ◌++◌,
  ◌==◌, Bytes, is_empty, contains, contains-append, arith, Bool-cases,
}
use ovpn_manager.Generate.Text.{
  strip_cr, last_byte, out_of_bounds, contents, with_newline, write_cert_file,
}

unfoldable pub all_cr : Bytes → Bool
all_cr [] = true
all_cr (c ∷ s) = c == 13 && all_cr s

is_empty-strip_cr : (s : Bytes) → is_empty (strip_cr s) ≡ all_cr s
unfolding strip_cr all_cr
is_empty-strip_cr [] = refl
is_empty-strip_cr (c ∷ s) = elim (Bool-cases (c == 13)) [
  | inl cr ↦ rw cr (is_empty-strip_cr s)
  | inr other ↦ rw other refl
]

contains-strip_cr : (s : Bytes) → contains 13 (strip_cr s) ≡ false
unfolding strip_cr
contains-strip_cr [] = refl
contains-strip_cr (c ∷ s) = elim (Bool-cases (c == 13)) [
  | inl cr ↦ rw cr (contains-strip_cr s)
  | inr other ↦ rw (other, contains, other) (contains-strip_cr s)
]

last_byte-append : (c d : ℕ) (s : Bytes) → last_byte c (s ++ (d ∷ [])) ≡ d
unfolding last_byte
last_byte-append c d [] = refl
last_byte-append c d (e ∷ s) = last_byte-append e d s

with_newline_lem :
    (t w : Bytes)
    → with_newline t ≡ contents w
    → contains 13 t ≡ false
    → (contains 13 w ≡ false) × (last_byte 0 w ≡ 10) × ((w ≡ t) ⊎ (w ≡ t ++ (10 ∷ [])))
unfolding with_newline
with_newline_lem [] w e h = cc
with_newline_lem (c ∷ s) w e h = elim (Bool-cases (last_byte c s == 10)) [
  | inl ended ↦
      let same : c ∷ s ≡ w = ground arith in
      subst
        (λ x.
          (contains 13 x ≡ false)
          × (last_byte 0 x ≡ 10)
          × ((x ≡ c ∷ s) ⊎ (x ≡ (c ∷ s) ++ (10 ∷ []))))
        same (h, (==_iff (last_byte c s) 10).0 ended, inl refl)
  | inr open_end ↦
      let same : (c ∷ s) ++ (10 ∷ []) ≡ w = ground arith in
      subst
        (λ x.
          (contains 13 x ≡ false)
          × (last_byte 0 x ≡ 10)
          × ((x ≡ c ∷ s) ⊎ (x ≡ (c ∷ s) ++ (10 ∷ []))))
        same
        (
          ground (arith, contains-append 13 (c ∷ s) (10 ∷ [])),
          last_byte-append 0 10 (c ∷ s),
          inr refl,
        )
]

with_newline-out_of_bounds : (t : Bytes) → (with_newline t ≡ out_of_bounds) ↔ (is_empty t ≡ true)
unfolding with_newline
with_newline-out_of_bounds [] = (λ e. refl, λ h. refl)
with_newline-out_of_bounds (c ∷ s) = (λ e. cc, λ h. cc)

-- write_cert_file reads out of bounds exactly where the file can be opened and the text is not empty
-- and has only '\r'.
pub write_cert_file-out_of_bounds :
    (opened : Bool) (s : Bytes)
    → (write_cert_file opened s ≡ out_of_bounds)
      ↔ ((opened ≡ true) × (is_empty s ≡ false) × (all_cr s ≡ true))
unfolding write_cert_file
write_cert_file-out_of_bounds opened [] = (λ e. cc, λ h. cc)
write_cert_file-out_of_bounds false (c ∷ s) = (λ e. cc, λ h. cc)
write_cert_file-out_of_bounds true (c ∷ s) =
    let out = with_newline-out_of_bounds (strip_cr (c ∷ s)) in
    let same = is_empty-strip_cr (c ∷ s) in
    (λ e. (refl, refl, sym same ∙ out.0 e), λ h. out.1 (same ∙ h.2))

-- A text that write_cert_file writes has no '\r' and ends with a newline; it is the given text
-- without its '\r', with a newline added if it had none at its end.
pub write_cert_file-contents :
    (s w : Bytes)
    → write_cert_file true s ≡ contents w
    → (contains 13 w ≡ false)
      × (last_byte 0 w ≡ 10)
      × ((w ≡ strip_cr s) ⊎ (w ≡ strip_cr s ++ (10 ∷ [])))
unfolding write_cert_file
write_cert_file-contents [] w e = cc
write_cert_file-contents (c ∷ s) w e =
    with_newline_lem (strip_cr (c ∷ s)) w e (contains-strip_cr (c ∷ s))
