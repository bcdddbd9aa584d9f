-- ===== src/Setup/Clearing.antt =====
-- What clear_config_password leaves of the configuration file.
use ovpn_manager.Prelude.{
  ℕ, zero, suc, Bool, none, ap₂, if◌then◌else◌, ◌+◌, ◌-◌, ◌≤◌, ◌≡◌, refl, ap, ◌∙◌, false, ◌||◌,
  List, [], ◌∷◌, ◌++◌, some, ◌==◌, Bytes, codes, map, concat, take, length, length-append, contains,
  contains_text, find_char, append_assoc, All, arith, Bool-cases, inl, inr,
}
use ovpn_manager.Setup.{fgets_from, up_to_colon, comment, clear_line, cleared}

-- A line without its newline, which `fgets` reads as a whole.
abbrev pub IsLine : Bytes → Type 0
IsLine b = (contains 10 b ≡ false) × (length b ≤ 510)

-- The line with its newline.
abbrev pub ended : Bytes → Bytes
ended b = b ++ (10 ∷ [])

fgets_from-line :
    (cur b rest : Bytes)
    → contains 10 b ≡ false
    → length cur + length b ≤ 510
    → fgets_from cur (b ++ (10 ∷ rest)) ≡ (cur ++ ended b) ∷ fgets_from [] rest
unfolding fgets_from
fgets_from-line cur [] rest h le = refl
fgets_from-line cur (c ∷ b) rest h le =
    let size = length-append {0} cur (c ∷ []) in
    let other : (c == 10 || length (cur ++ c ∷ []) == 511) ≡ false = ground (arith, size) in
    rw other (
      fgets_from-line (cur ++ c ∷ []) b rest (ground arith) (omega (arith, size))
      ∙ ap (λ l. l ∷ fgets_from [] rest) (append_assoc cur (c ∷ []) (ended b)))

fgets_from-concat :
    (bs : List Bytes) → All IsLine bs → fgets_from [] (concat (map ended bs)) ≡ map ended bs
unfolding fgets_from
fgets_from-concat [] h = refl
fgets_from-concat (b ∷ bs) h =
    ap (fgets_from []) (append_assoc b (10 ∷ []) (concat (map ended bs)))
    ∙ fgets_from-line [] b (concat (map ended bs)) h.0.0 (omega (arith, h.0.1))
    ∙ ap (λ l. ended b ∷ l) (fgets_from-concat bs h.1)

up_to_colon-append :
    (k v : Bytes) → contains b':' k ≡ false → up_to_colon (k ++ (b':' ∷ v)) ≡ k ++ (b':' ∷ [])
unfolding up_to_colon
up_to_colon-append [] v h = refl
up_to_colon-append (c ∷ k) v h = ground (arith, up_to_colon-append k v)

find_char-colon :
    (k v : Bytes) → contains b':' k ≡ false → find_char b':' (k ++ (b':' ∷ v)) ≡ some (b':' ∷ v)
unfolding find_char
find_char-colon [] v h = refl
find_char-colon (c ∷ k) v h = ground (arith, find_char-colon k v)

clear_line_lem :
    (k v : Bytes)
    → contains b':' k ≡ false
    → clear_line (k ++ (b':' ∷ v)) ≡ (
        if contains_text (codes "password") (k ++ (b':' ∷ v))
        then (k ++ (b':' ∷ [])) ++ take (511 - length (k ++ (b':' ∷ []))) comment
        else k ++ (b':' ∷ v))
unfolding clear_line
clear_line_lem k v h = elim (Bool-cases (contains_text (codes "password") (k ++ (b':' ∷ v)))) [
  | inl has ↦ rw (has, clear_line, find_char-colon k v h, up_to_colon-append k v h) refl
  | inr other ↦ rw (other, clear_line) refl
]

-- A line of the file without its newline: a key, which has no ':', and what stands behind its first
-- ':', or a line with no ':'.
pub data Line : Type 0 where
  keyed : Bytes → Bytes → Line
  plain : Bytes → Line

abbrev pub line_text : Line → Bytes
line_text (keyed k v) = k ++ (b':' ∷ v)
line_text (plain b) = b

abbrev pub has_colon : Line → Bool
has_colon (keyed k v) = contains b':' k
has_colon (plain b) = contains b':' b

-- A line that `fgets` reads as a whole, taken apart at its first ':'.
abbrev pub IsParsed : Line → Type 0
IsParsed l = IsLine (line_text l) × (has_colon l ≡ false)

-- What is written for a line: behind the key of one with the word "password" stands the comment, cut
-- to the 511 bytes of a line.
abbrev pub written_line : Line → Bytes
written_line (keyed k v) =
    if contains_text (codes "password") (k ++ (b':' ∷ (v ++ (10 ∷ []))))
    then (k ++ (b':' ∷ [])) ++ take (511 - length (k ++ (b':' ∷ []))) comment
    else k ++ (b':' ∷ (v ++ (10 ∷ [])))
written_line (plain b) = ended b

find_char-none : (b : Bytes) → contains b':' b ≡ false → find_char b':' (ended b) ≡ none
unfolding find_char
find_char-none [] h = refl
find_char-none (c ∷ b) h = ground (arith, find_char-none b)

clear_line-written_line :
    (l : Line) → IsParsed l → clear_line (ended (line_text l)) ≡ written_line l
unfolding clear_line
clear_line-written_line (keyed k v) h =
    ap clear_line (append_assoc k (b':' ∷ v) (10 ∷ [])) ∙ clear_line_lem k (v ++ (10 ∷ [])) h.1
clear_line-written_line (plain b) h =
    elim (Bool-cases (contains_text (codes "password") (ended b))) [
      | inl has ↦ rw (has, clear_line, find_char-none b h.1) refl
      | inr other ↦ rw (other, clear_line) refl
    ]

map-clear_line :
    (n : ℕ) (ls : List Line)
    → All IsParsed ls
    → map clear_line (take n (map ended (map line_text ls))) ≡ map written_line (take n ls)
map-clear_line zero ls h = refl
map-clear_line (suc n) [] h = refl
map-clear_line (suc n) (l ∷ ls) h =
    ap₂ (λ x xs. x ∷ xs) (clear_line-written_line l h.0) (map-clear_line n ls h.1)

map-line_text-IsLine : (ls : List Line) → All IsParsed ls → All IsLine (map line_text ls)
map-line_text-IsLine [] h = tt
map-line_text-IsLine (l ∷ ls) h = (h.0.0, map-line_text-IsLine ls h.1)

-- Of a file of lines of at most 510 bytes, each ended by a newline, the first 100 are written and the
-- others are lost. In a line with a ':' and, anywhere, the word "password", what stands behind the
-- first ':' is replaced by the comment, cut to 511 bytes in all; any other line is as it was.
pub cleared-lines :
    (ls : List Line)
    → All IsParsed ls
    → cleared (concat (map ended (map line_text ls))) ≡ concat (map written_line (take 100 ls))
unfolding cleared
cleared-lines ls h =
    ap (λ r. concat (map clear_line (take 100 r)))
      (fgets_from-concat (map line_text ls) (map-line_text-IsLine ls h))
    ∙ ap concat (map-clear_line 100 ls h)
