-- ===== src/Prelude/Digits.antt =====
-- Decimal output read back.
use Prim.Native.Nat.{ℕ, zero, suc, ◌+◌, ◌/◌, ◌%◌, ◌<◌}
use mathlib.Core.Path.{◌≡◌, refl, ap, ◌∙◌}
use mathlib.Core.List.{[], ◌∷◌, ◌++◌}
use native.Mathlib.Omega.{arith}
use ovpn_manager.Prelude.CString.{Bytes}
use ovpn_manager.Prelude.Int.{digits_value}
use ovpn_manager.Prelude.Decimal.{decimal, digits_onto}

digits_onto-append :
    (f n : ℕ) (acc rest : Bytes) → digits_onto f n acc ++ rest ≡ digits_onto f n (acc ++ rest)
unfolding digits_onto
digits_onto-append zero n acc rest = refl
digits_onto-append (suc f) n acc rest =
    ground (arith, digits_onto-append f (n / 10) ((48 + n % 10) ∷ acc) rest)

digits_value-digits_onto :
    (f n : ℕ) (acc : Bytes) → n < f → digits_value 0 (digits_onto f n acc) ≡ digits_value n acc
unfolding digits_onto digits_value
digits_value-digits_onto zero n acc h = absurd (omega arith)
digits_value-digits_onto (suc f) n acc h =
    ground (arith, digits_value-digits_onto f (n / 10) ((48 + n % 10) ∷ acc))

-- Reading the digits of a printed number goes on with the number at what stands behind it.
pub digits_value-decimal :
    (n : ℕ) (rest : Bytes) → digits_value 0 (decimal n ++ rest) ≡ digits_value n rest
unfolding decimal
digits_value-decimal n rest =
    ap (digits_value 0) (digits_onto-append (suc n) n [] rest)
    ∙ digits_value-digits_onto (suc n) n rest (omega arith)
