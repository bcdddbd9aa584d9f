-- ===== src/Sessions/Split.antt =====
-- `split_line` gives back the fields that a line was joined from.
use ovpn_manager.Prelude.{
  ℕ, zero, suc, ◌-◌, ◌<◌, ◌≡◌, refl, ap, ◌∙◌, false, not, ◌&&◌, List, [], ◌∷◌, ◌++◌, ltb, leb,
  if◌then◌else◌, Bytes, is_empty, take, arith, append_assoc, append-nil, contains, Bool-cases, inl,
  inr,
}
use ovpn_manager.Sessions.Report.{split_from, split_line}

-- The fields with commas between them.
unfoldable pub join : List Bytes → Bytes
join [] = []
join (f ∷ []) = f
join (f ∷ g ∷ fs) = f ++ b',' ∷ join (g ∷ fs)

-- No field has a comma, and the last one is not empty.
abbrev pub IsFields : List Bytes → Type 0
IsFields [] = ⊥
IsFields (f ∷ []) = (contains b',' f ≡ false) × (is_empty f ≡ false)
IsFields (f ∷ g ∷ fs) = (contains b',' f ≡ false) × IsFields (g ∷ fs)

split_from-comma :
    (m n : ℕ) (cur f s : Bytes)
    → contains b',' f ≡ false
    → split_from m n cur (f ++ b',' ∷ s)
      ≡ (cur ++ f) ∷ (if leb m (suc n) then [] else split_from m (suc n) [] s)
unfolding split_from
split_from-comma m n cur [] s h = rw append-nil
split_from-comma m n cur (c ∷ f) s h =
    ground (arith, split_from-comma m n (cur ++ c ∷ []) f s, append_assoc cur (c ∷ []) f)

split_from-end :
    (m n : ℕ) (cur f : Bytes)
    → contains b',' f ≡ false
    → split_from m n cur f ≡ (if ltb n m && not (is_empty (cur ++ f)) then (cur ++ f) ∷ [] else [])
unfolding split_from
split_from-end m n cur [] h = rw append-nil
split_from-end m n cur (c ∷ f) h =
    ground (arith, split_from-end m n (cur ++ c ∷ []) f, append_assoc cur (c ∷ []) f)

take-of_pos : (k : ℕ) (f : Bytes) (fs : List Bytes) → 0 < k → take k (f ∷ fs) ≡ f ∷ take (k - 1) fs
take-of_pos zero f fs h = elim h [ ]
take-of_pos (suc k) f fs h = let e : suc k - 1 ≡ k = omega arith in rw e

take-nil : (k : ℕ) → take {A = Bytes} k [] ≡ []
take-nil zero = refl
take-nil (suc k) = refl

split_from-join :
    (fs : List Bytes) (m n : ℕ)
    → IsFields fs
    → n < m
    → split_from m n [] (join fs) ≡ take (m - n) fs
unfolding join
split_from-join [] m n h lt = elim h [ ]
split_from-join (f ∷ []) m n h lt =
    ground (arith, split_from-end m n [] f h.0, take-of_pos (m - n) f [], take-nil (m - n - 1))
split_from-join (f ∷ g ∷ fs) m n h lt =
    let later = split_from-comma m n [] f (join (g ∷ fs)) h.0 in
    let pick = take-of_pos (m - n) f (g ∷ fs) (omega arith) in
    elim (Bool-cases (leb m (suc n))) [
      | inl full ↦
          let none_left : m - n - 1 ≡ 0 = ground arith in later ∙ rw (full, pick, none_left)
      | inr room ↦
          let left : m - n - 1 ≡ m - suc n = omega arith in
          later
          ∙ rw (room, pick, left)
              (ap (◌∷◌ f) (split_from-join (g ∷ fs) m (suc n) h.1 (ground arith)))
    ]

-- A line of fields without commas, the last of them not empty, is split into its first `max_fields`
-- fields, for every `max_fields` but 0.
pub split_line-join :
    (fs : List Bytes) (max_fields : ℕ)
    → IsFields fs
    → 0 < max_fields
    → split_line (join fs) max_fields ≡ take max_fields fs
unfolding split_line
split_line-join fs m h lt = split_from-join fs m 0 h lt ∙ ap (λ k. take k fs) (omega arith)
