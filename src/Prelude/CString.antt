-- ===== src/Prelude/CString.antt =====
-- C strings: the bytes before the terminating NUL, as a list of numbers.
use Prim.Native.Nat.{ℕ, zero, suc, ◌≤◌}
use Prim.Native.Char.{code}
use Prim.Native.String.{String}
use mathlib.Core.Path.{◌≡◌, refl}
use mathlib.Core.Logic.{◌↔◌}
use mathlib.Core.Bool.{Bool, true, false, ◌&&◌, ◌||◌}
use mathlib.Core.Option.{Option, none, some}
use mathlib.Core.List.{List, [], ◌∷◌}
use native.Mathlib.Omega.{arith}
use ovpn_manager.Prelude.Tests.{◌==◌, if◌then◌else◌}
use ovpn_manager.Prelude.Lists.{length, take}

abbrev pub Bytes : Type 0
Bytes = List ℕ

-- The code points of a text: its bytes, if it is ASCII.
abbrev pub codes : String → Bytes
codes String.[] = []
codes (String.◌∷◌ c s) = code c ∷ codes s

-- `strcmp(a, b) == 0`
unfoldable pub eqb : Bytes → Bytes → Bool
eqb [] [] = true
eqb (x ∷ a) (y ∷ b) = x == y && eqb a b
eqb _ _ = false

pub eqb_iff : (a b : Bytes) → (eqb a b ≡ true) ↔ (a ≡ b)
unfolding eqb
eqb_iff (x ∷ a) (y ∷ b) = ground (arith, eqb_iff a b)
eqb_iff _ _ = ground arith

pub eqb_refl : (a : Bytes) → eqb a a ≡ true
eqb_refl a = (eqb_iff a a).1 refl

-- Cutting a string behind the end of the name that it is compared to changes nothing.
pub eqb-take : (n : ℕ) (k name : Bytes) → suc (length name) ≤ n → eqb (take n k) name ≡ eqb k name
unfolding eqb
eqb-take zero k name h = absurd (omega arith)
eqb-take (suc n) [] name h = refl
eqb-take (suc n) (x ∷ k) [] h = refl
eqb-take (suc n) (x ∷ k) (y ∷ name) h = ground (arith, eqb-take n k name)

-- `strncmp(s, p, strlen(p)) == 0`
unfoldable pub starts_with : Bytes → Bytes → Bool
starts_with [] s = true
starts_with (x ∷ p) [] = false
starts_with (x ∷ p) (y ∷ s) = x == y && starts_with p s

-- A string is empty, as `s[0] == '\0'` tests.
abbrev pub is_empty : Bytes → Bool
is_empty [] = true
is_empty (x ∷ s) = false

-- `strstr(s, p) != NULL`
unfoldable pub contains_text : Bytes → Bytes → Bool
contains_text p [] = starts_with p []
contains_text p (c ∷ s) = starts_with p (c ∷ s) || contains_text p s

-- `strchr`: the text from the first `c` on.
unfoldable pub find_char : ℕ → Bytes → Option Bytes
find_char c [] = none
find_char c (d ∷ s) = let rest = find_char c s in if d == c then some (d ∷ s) else rest

-- `strstr`: the text from the first `p` on.
unfoldable pub find_text : Bytes → Bytes → Option Bytes
find_text p [] = if starts_with p [] then some [] else none
find_text p (c ∷ s) =
    let rest = find_text p s in if starts_with p (c ∷ s) then some (c ∷ s) else rest
