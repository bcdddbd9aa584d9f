-- ===== src/Certs/Hex.antt =====
-- A fingerprint can be read back from its hexadecimal text.
use ovpn_manager.Prelude.{
  passes_until, passes_until-at, ==_iff, ℕ, ◌+◌, ◌-◌, ◌*◌, ◌/◌, ◌%◌, ◌^◌, ◌<◌, ◌≡◌, refl, ap, true,
  [], ◌∷◌, ◌==◌, if◌then◌else◌, Bytes, length, get_or, arith, All, leb,
}
use ovpn_manager.Certs.{hex_digits, fingerprint_to_hex}

-- The value of one hexadecimal digit, as a reader of such texts has it.
pub hex_value : ℕ → ℕ
hex_value c = if leb c b'9' then c - b'0' else c - b'A' + 10

unfoldable pub of_hex : Bytes → Bytes
unfolding hex_value
of_hex [] = []
of_hex (h ∷ []) = []
of_hex (h ∷ l ∷ s) = (hex_value h * 16 + hex_value l) ∷ of_hex s

digit_table : passes_until (λ x. hex_value (get_or hex_digits x 0) == x) 16 ≡ true
unfolding passes_until hex_value
digit_table = refl

hex_value-digit : (x : ℕ) → x < 16 → hex_value (get_or hex_digits x 0) ≡ x
hex_value-digit x h = (==_iff _ x).0 (passes_until-at _ 16 x h digit_table)

-- Reading the text back gives the digest, for every list of bytes; the text has two digits for
-- each of them.
pub of_hex-fingerprint :
    (digest : Bytes)
    → All (λ d. d < 256) digest
    → (of_hex (fingerprint_to_hex digest) ≡ digest)
      × (length (fingerprint_to_hex digest) ≡ 2 * length digest)
unfolding of_hex fingerprint_to_hex
of_hex-fingerprint [] h = (refl, omega arith)
of_hex-fingerprint (d ∷ digest) h =
    let later = of_hex-fingerprint digest h.1 in
    let high = hex_value-digit (d / 2 ^ 4 % 2 ^ 4) (omega arith) in
    let low = hex_value-digit (d % 2 ^ 4) (omega arith) in
    (rw (high, low, later.0) (ap (λ x. x ∷ digest) (omega arith)), omega (arith, later.1))
