-- ===== src/Prelude/Bits.antt =====
-- `&` and `|` on numbers whose low `k` bits are set apart from the others.
use Prim.Native.Nat.{
  ℕ, zero, suc, ◌+◌, ◌-◌, ◌*◌, ◌/◌, ◌%◌, ◌^◌, ◌≤◌, ◌<◌, min, max, bit_and, bit_or, digits,
  bit_and-bitwise, bit_or-bitwise,
}
use mathlib.Core.Path.{◌≡◌, refl, ap, ◌∙◌}
use native.Mathlib.Nat.{pow-suc, one-le-pow}
use native.Mathlib.Omega.{arith}

-- Fuel beyond the number itself changes nothing.
module _ (rest : ℕ → ℕ) (digit : ℕ → ℕ → ℕ) where
  spare_unit :
      (fuel x y : ℕ) → x ≤ fuel → digits rest digit (suc fuel) x y ≡ digits rest digit fuel x y
  spare_unit zero zero y le = refl
  spare_unit zero (suc x) y le = absurd (omega arith)
  spare_unit (suc fuel) zero y le = refl
  spare_unit (suc fuel) (suc x) y le =
      ap (λ high. high * 2 + digit (suc x % 2) (y % 2))
        (spare_unit fuel (suc x / 2) (y / 2) (omega arith))

  spare_fuel :
      (spare total fuel x y : ℕ)
      → total ≡ spare + fuel
      → x ≤ fuel
      → digits rest digit total x y ≡ digits rest digit fuel x y
  spare_fuel zero total fuel x y sum le =
      let same : total ≡ fuel = omega arith in ap (λ n. digits rest digit n x y) same
  spare_fuel (suc spare) zero fuel x y sum le = absurd (omega arith)
  spare_fuel (suc spare) (suc total) fuel x y sum le =
      spare_unit total x y (omega arith) ∙ spare_fuel spare total fuel x y (omega arith) le

  halving_fuel :
      (x y : ℕ) → digits rest digit x (suc x / 2) y ≡ digits rest digit (suc x / 2) (suc x / 2) y
  halving_fuel x y =
      spare_fuel (x - suc x / 2) x (suc x / 2) (suc x / 2) y (omega arith) (omega arith)

-- The lowest digit of `a & b` and of `a | b`, and the digits above it.
and_low : (a b : ℕ) → bit_and a b ≡ bit_and (a / 2) (b / 2) * 2 + min (a % 2) (b % 2)
and_low zero b = simp bit_and-bitwise (omega arith)
and_low (suc a) b = simp bit_and-bitwise (omega (arith, halving_fuel (λ y. 0) min a (b / 2)))

or_low : (a b : ℕ) → bit_or a b ≡ bit_or (a / 2) (b / 2) * 2 + max (a % 2) (b % 2)
or_low zero b = simp bit_or-bitwise (omega arith)
or_low (suc a) b = simp bit_or-bitwise (omega (arith, halving_fuel (λ y. y) max a (b / 2)))

or_zero_upto : (n a : ℕ) → a ≤ n → bit_or a 0 ≡ a
or_zero_upto zero a h = let e : a ≡ 0 = omega arith in rw e
or_zero_upto (suc n) zero h = refl
or_zero_upto (suc n) (suc a) h =
    omega (arith, or_low (suc a) 0, or_zero_upto n (suc a / 2) (omega arith))

pub bit_or-zero : (a : ℕ) → bit_or a 0 ≡ a
bit_or-zero a = or_zero_upto a a (omega arith)

pub bit_or-one : (a : ℕ) → bit_or a 1 ≡ a / 2 * 2 + 1
bit_or-one a = omega (arith, or_low a 1, bit_or-zero (a / 2))

double_pow : (q k : ℕ) → q * 2 ^ suc k ≡ (q * 2 ^ k) * 2
double_pow q k = omega (arith, ap (λ (t : ℕ). q * t) (pow-suc 2 k))

-- `|` acts on the high parts and on the low parts by themselves.
pub bit_or-parts :
    (k q m r : ℕ) → r < 2 ^ k → bit_or (q * 2 ^ k) (m * 2 ^ k + r) ≡ bit_or q m * 2 ^ k + r
bit_or-parts zero q m r h = let e : r ≡ 0 = omega arith in rw e (ground arith)
bit_or-parts (suc k) q m r h = omega (
  arith,
  or_low (q * 2 ^ suc k) (m * 2 ^ suc k + r),
  double_pow q k,
  double_pow m k,
  double_pow (bit_or q m) k,
  pow-suc 2 k,
  ap (λ x. bit_or x ((m * 2 ^ suc k + r) / 2)) (halved q),
  ap (λ x. bit_or (q * 2 ^ k) x) (halved_rest m),
  bit_or-parts k q m (r / 2) (omega (arith, pow-suc 2 k)),
)
  where
    halved : (x : ℕ) → x * 2 ^ suc k / 2 ≡ x * 2 ^ k
    halved x = omega (arith, double_pow x k)

    halved_rest : (x : ℕ) → (x * 2 ^ suc k + r) / 2 ≡ x * 2 ^ k + r / 2
    halved_rest x = omega (arith, double_pow x k)

-- A mask whose `k` low bits are clear keeps the high part of a number.
pub bit_and-parts :
    (k x q r : ℕ) → r < 2 ^ k → bit_and (x * 2 ^ k + r) (q * 2 ^ k) ≡ bit_and x q * 2 ^ k
bit_and-parts zero x q r h = let e : r ≡ 0 = omega arith in rw e (ground arith)
bit_and-parts (suc k) x q r h = omega (
  arith,
  and_low (x * 2 ^ suc k + r) (q * 2 ^ suc k),
  double_pow q k,
  double_pow x k,
  double_pow (bit_and x q) k,
  ap (λ t. bit_and t (q * 2 ^ suc k / 2)) halved_rest,
  ap (λ t. bit_and (x * 2 ^ k + r / 2) t) halved,
  bit_and-parts k x q (r / 2) (omega (arith, pow-suc 2 k)),
)
  where
    halved : q * 2 ^ suc k / 2 ≡ q * 2 ^ k
    halved = omega (arith, double_pow q k)

    halved_rest : (x * 2 ^ suc k + r) / 2 ≡ x * 2 ^ k + r / 2
    halved_rest = omega (arith, double_pow x k)

-- A mask of `n` ones keeps a number of `n` bits.
pub bit_and-ones : (n x : ℕ) → x < 2 ^ n → bit_and x (2 ^ n - 1) ≡ x
bit_and-ones zero x h = let e : x ≡ 0 = omega arith in rw e refl
bit_and-ones (suc n) x h = omega (
  arith,
  and_low x (2 ^ suc n - 1),
  pow-suc 2 n,
  one-le-pow n 2,
  ap (λ t. bit_and (x / 2) t) half_mask,
  bit_and-ones n (x / 2) (omega (arith, pow-suc 2 n)),
)
  where
    half_mask : (2 ^ suc n - 1) / 2 ≡ 2 ^ n - 1
    half_mask = omega (arith, pow-suc 2 n)
