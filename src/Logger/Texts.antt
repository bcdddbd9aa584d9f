-- ===== src/Logger/Texts.antt =====
-- The ends of a text, and the replacements in it.
use ovpn_manager.Prelude.{
  find_char, find_text, ℕ, ◌+◌, ◌*◌, ◌≤◌, ◌≡◌, refl, sym, ap, ◌∙◌, inl, inr, ◌||◌, [], ◌∷◌, ◌++◌,
  some, ◌==◌, if◌then◌else◌, Bytes, starts_with, take, drop, length, length-append,
  take-append-drop, append-nil, append_assoc, arith, Bool-cases, Option-cases,
}
use ovpn_manager.Logger.{line_end, skip_marks, behind_password}

-- How many bytes are a 'p'.
unfoldable pub ps : Bytes → ℕ
ps [] = 0
ps (c ∷ s) = (if c == b'p' then 1 else 0) + ps s

-- One for each byte, and nine for each 'p', by which a masked password may be longer.
abbrev pub weight : Bytes → ℕ
weight s = length s + 9 * ps s

pub ps-append : (s t : Bytes) → ps (s ++ t) ≡ ps s + ps t
unfolding ps
ps-append [] t = omega arith
ps-append (c ∷ s) t = omega (arith, ps-append s t)

-- `t` is the end of `s`.
abbrev pub IsEnd : Bytes → Bytes → Type 0
IsEnd t s = (front : Bytes) × (s ≡ front ++ t)

pub longer : (c : ℕ) (s t : Bytes) → IsEnd t s → IsEnd t (c ∷ s)
longer c s t (front, e) = (c ∷ front, ap (◌∷◌ c) e)

pub drop-IsEnd : (n : ℕ) (s : Bytes) → IsEnd (drop n s) s
drop-IsEnd n s = (take n s, sym (take-append-drop n s))

pub IsEnd-trans : (a b c : Bytes) → IsEnd a b → IsEnd b c → IsEnd a c
IsEnd-trans a b c (f, e) (g, h) = (g ++ f, h ∙ ap (λ t. g ++ t) e ∙ sym (append_assoc g f a))

-- The length and the number of 'p's of an end.
pub IsEnd-le : (t s : Bytes) → IsEnd t s → (length t ≤ length s) × (ps t ≤ ps s)
IsEnd-le t s (front, e) = (
  omega (arith, ap length e, length-append {0} front t),
  omega (arith, ap ps e, ps-append front t),
)

pub find_char-IsEnd : (c : ℕ) (s t : Bytes) → find_char c s ≡ some t → IsEnd t s
unfolding find_char
find_char-IsEnd c [] t e = cc
find_char-IsEnd c (d ∷ s) t e = elim (Bool-cases (d == c)) [
  | inl found ↦ ([], ground arith)
  | inr other ↦ longer d s t (find_char-IsEnd c s t (ground arith))
]

pub find_text-IsEnd : (p s t : Bytes) → find_text p s ≡ some t → IsEnd t s
unfolding find_text
find_text-IsEnd p [] t e = ([], ground arith)
find_text-IsEnd p (d ∷ s) t e = elim (Bool-cases (starts_with p (d ∷ s))) [
  | inl found ↦ ([], ground arith)
  | inr other ↦ longer d s t (find_text-IsEnd p s t (ground arith))
]

pub skip_marks-IsEnd : (s : Bytes) → IsEnd (skip_marks s) s
unfolding skip_marks
skip_marks-IsEnd [] = ([], refl)
skip_marks-IsEnd (c ∷ s) = elim (Bool-cases (c == b' ' || (c == b':' || c == b'='))) [
  | inl mark ↦ rw mark (longer c s _ (skip_marks-IsEnd s))
  | inr other ↦ rw other ([], refl)
]

pub line_end-IsEnd : (s : Bytes) → IsEnd (line_end s) s
unfolding line_end
line_end-IsEnd s = elim (Option-cases (find_char 10 s)) [
  | inl e ↦ rw (e, line_end) (s, sym (append-nil s))
  | inr (t, e) ↦
      rw (e, line_end) (IsEnd-trans (drop 1 t) t s (drop-IsEnd 1 t) (find_char-IsEnd 10 s t e))
]

pub behind_password-IsEnd : (q : Bytes) → IsEnd (behind_password q) q
unfolding behind_password
behind_password-IsEnd q = elim (Option-cases (find_char b' ' q)) [
  | inr (t, e) ↦ rw (e, behind_password) (find_char-IsEnd b' ' q t e)
  | inl e ↦ (elim (Option-cases (find_char b',' q)) [
    | inr (t, e') ↦ rw (e, behind_password, e') (find_char-IsEnd b',' q t e')
    | inl e' ↦ rw (e, behind_password, e') (q, sym (append-nil q))
  ])
]
