-- ===== src/Prelude/Decimal.antt =====
-- Decimal output, as `%d` prints a number that is not negative.
use Prim.Native.Nat.{ℕ, zero, suc, ◌+◌, ◌/◌, ◌%◌, ◌≤◌}
use mathlib.Core.Path.{◌≡◌}
use mathlib.Core.List.{[], ◌∷◌}
use native.Mathlib.Omega.{arith}
use ovpn_manager.Prelude.Tests.{ltb, if◌then◌else◌}
use ovpn_manager.Prelude.Lists.{length}
use ovpn_manager.Prelude.CString.{Bytes}

-- The digits of `n` in front of `acc`, on fuel.
unfoldable pub digits_onto : ℕ → ℕ → Bytes → Bytes
digits_onto zero n acc = acc
digits_onto (suc f) n acc =
    let rest = digits_onto f (n / 10) ((48 + n % 10) ∷ acc) in
    if ltb n 10 then (48 + n) ∷ acc else rest

unfoldable pub decimal : ℕ → Bytes
unfolding digits_onto
decimal n = digits_onto (suc n) n []

length-digits_onto-ge : (f n : ℕ) (acc : Bytes) → length acc ≤ length (digits_onto f n acc)
unfolding digits_onto
length-digits_onto-ge zero n acc = omega arith
length-digits_onto-ge (suc f) n acc =
    ground (arith, length-digits_onto-ge f (n / 10) ((48 + n % 10) ∷ acc))

-- A number of at least `10 ^ 3` takes four bytes.
length-digits_onto-step :
    (f n : ℕ) (acc : Bytes)
    → 10 ≤ n
    → digits_onto (suc f) n acc ≡ digits_onto f (n / 10) ((48 + n % 10) ∷ acc)
unfolding digits_onto
length-digits_onto-step f n acc h = ground arith

length-digits_onto-last :
    (f n : ℕ) (acc : Bytes) → suc (length acc) ≤ length (digits_onto (suc f) n acc)
unfolding digits_onto
length-digits_onto-last f n acc =
    ground (arith, length-digits_onto-ge f (n / 10) ((48 + n % 10) ∷ acc))

digits_onto_four :
    (f n : ℕ) (acc : Bytes)
    → 1000 ≤ n
    → length acc + 4 ≤ length (digits_onto (suc (suc (suc (suc f)))) n acc)
digits_onto_four f n acc h = rw (length-digits_onto-step (suc (suc (suc f))) n acc (omega arith)) (
    rw (length-digits_onto-step (suc (suc f)) (n / 10) _ (omega arith)) (
      rw (length-digits_onto-step (suc f) (n / 10 / 10) _ (omega arith)) (
        omega (
          arith,
          length-digits_onto-last f (n / 10 / 10 / 10)
              ((48 + n / 10 / 10 % 10) ∷ (48 + n / 10 % 10) ∷ (48 + n % 10) ∷ acc),
        ))))

pub length-decimal-ge_four : (n : ℕ) → 1000 ≤ n → 4 ≤ length (decimal n)
unfolding decimal
length-decimal-ge_four (suc (suc (suc n))) h = digits_onto_four n (suc (suc (suc n))) [] h
length-decimal-ge_four zero h = absurd (omega arith)
length-decimal-ge_four (suc zero) h = absurd (omega arith)
length-decimal-ge_four (suc (suc zero)) h = absurd (omega arith)
