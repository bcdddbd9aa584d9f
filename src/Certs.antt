-- ===== src/Certs.antt =====
-- master/cert_utils.c: escaping for SQL text, fingerprints in hexadecimal, and the choice of the
-- password for a private key. OpenSSL's reader and writer of PEM keys are a parameter.
pub mod Escape
pub mod Hex
pub mod Keys
pub mod X509
use ovpn_manager.Prelude.{
  ℕ, suc, ◌+◌, ◌*◌, ◌/◌, ◌%◌, ◌^◌, ◌≡◌, Bool, true, false, List, [], ◌∷◌, ◌++◌, Option, none, some,
  ◌==◌, if◌then◌else◌, Bytes, is_empty, codes, get_or, length,
}

-- The first loop of `escape_sql_string`.
unfoldable pub quote_count : Bytes → ℕ
quote_count [] = 0
quote_count (c ∷ s) = (if c == b'\'' then 1 else 0) + quote_count s

-- The second loop.
unfoldable pub escape_bytes : Bytes → Bytes
escape_bytes [] = []
escape_bytes (c ∷ s) = (if c == b'\'' then b'\'' ∷ b'\'' ∷ [] else c ∷ []) ++ escape_bytes s

-- `none` is the null pointer. The result is the text, with the size that `malloc` was asked for.
unfoldable pub escape_sql_string : Option Bytes → Option (Bytes × ℕ)
escape_sql_string none = none
escape_sql_string (some str) = some (escape_bytes str, length str + quote_count str + 1)

abbrev pub hex_digits : Bytes
hex_digits = codes "0123456789ABCDEF"

-- `hex[(digest[i] >> 4) & 0x0F]` and `hex[digest[i] & 0x0F]`, for every `i`.
unfoldable pub fingerprint_to_hex : Bytes → Bytes
fingerprint_to_hex [] = []
fingerprint_to_hex (d ∷ digest) =
    get_or hex_digits (d / 2 ^ 4 % 2 ^ 4) 0
    ∷ get_or hex_digits (d % 2 ^ 4) 0
    ∷ fingerprint_to_hex digest

-- OpenSSL's PEM functions: `write key (some p)` encrypts under `p`; `read` gives `none` where it
-- fails, for want of a buffer too. What was written under a password is read back under it.
pub record Pem : Type 1 where
  pub Key : Type 0
  pub write : Key → Option Bytes → Option Bytes
  pub read : Bytes → Option Bytes → Option Key
  pub read-write :
      (k : Key) (p pem : Bytes) → write k (some p) ≡ some pem → read pem (some p) ≡ some k

module _ (pem : Pem) where
  open pem use {Key, write, read}

  abbrev or_else : Option Key → Option Key → Option Key
  or_else none later = later
  or_else (some k) later = some k

  abbrev try_password : Bytes → Option Bytes → Option Key
  try_password text none = none
  try_password text (some p) = if is_empty p then none else read text (some p)

  -- The system key if there is one, then the password if it is not empty, then no password.
  unfoldable pub decrypt_private_key : Bytes → Bytes → Option Bytes → Option Key
  decrypt_private_key encryption_key text password =
      or_else (if is_empty encryption_key then none else read text (some encryption_key))
        (or_else (try_password text password) (read text none))

  encrypt_under : Option Bytes → Key → Option Bytes
  encrypt_under none key = none
  encrypt_under (some p) key = write key (some p)

  unfoldable pub encrypt_private_key : Bytes → Key → Option Bytes → Option Bytes
  unfolding encrypt_under
  encrypt_private_key encryption_key key password =
      encrypt_under (if is_empty encryption_key then password else some encryption_key) key
