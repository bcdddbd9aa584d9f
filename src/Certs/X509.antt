-- ===== src/Certs/X509.antt =====
-- master/cert_utils.c, sign_certificate: the certificate that is signed, as its template. OpenSSL is
-- a parameter.
use ovpn_manager.Prelude.{
  ℕ, ◌*◌, ◌-◌, suc, ◌≡◌, Bool, true, refl, leb, ltb, ◌^◌, Option, none, some, if◌then◌else◌, Bytes,
  codes, arith,
}
use ovpn_manager.Prelude.Int.{ℤ, pos, negsuc}
use ovpn_manager.Certs.{Pem}

-- OpenSSL's names and certificates. `serial_of` is a serial number in
-- hexadecimal, `key_to_pem` a key without a password. What `cert_to_pem` writes is read back.
pub record Openssl : Type 1 where
  pub pem : Pem
  pub Name : Type 0
  pub no_name : Name
  pub add_entry : Name → Bytes → Bytes → Name
  pub Cert : Type 0
  pub subject : Cert → Name
  pub cert_to_pem : Cert → Bytes
  pub read_cert : Bytes → Option Cert
  pub digest : Cert → Bytes
  pub serial_of : Cert → Option Bytes
  pub key_to_pem : pem.Key → Bytes
  pub read-cert_to_pem : (c : Cert) → read_cert (cert_to_pem c) ≡ some c

-- What is set in a certificate before it is signed.
pub record Template (Name Key : Type 0) : Type 0 where
  pub serial : ℕ
  pub lifetime : Option ℤ
  pub key : Key
  pub issuer : Name
  pub subject : Name
  pub basic_constraints : Bytes
  pub key_usage : Option Bytes

-- What OpenSSL answers to one request, where it may fail or is random.
pub record Crypto (o : Openssl) : Type 0 where
  pub new_key : ℕ → Option (o.pem.Key)
  pub new_cert : Bool
  pub serial : ℕ
  pub sign : Template (o.Name) (o.pem.Key) → o.pem.Key → Option (o.Cert)
  pub digested : Bool

-- Whether the seconds of a number of days fit an `int` of 32 bits.
unfoldable pub fits_int : ℤ → Bool
fits_int (pos n) = ltb (n * 24 * 3600) (2 ^ 31)
fits_int (negsuc n) = leb (suc n * 24 * 3600) (2 ^ 31)

-- The seconds of a number of days.
abbrev pub day_seconds : ℤ → ℤ
day_seconds (pos n) = pos (n * 24 * 3600)
day_seconds (negsuc n) = negsuc (suc n * 24 * 3600 - 1)

-- `days * 24 * 3600` in an `int`; `none` is an overflow, of which the result is undefined.
unfoldable pub seconds : ℤ → Option ℤ
unfolding fits_int
seconds days = if fits_int days then some (day_seconds days) else none

pub seconds-fits_int : (days : ℤ) → fits_int days ≡ true → seconds days ≡ some (day_seconds days)
unfolding seconds
seconds-fits_int days h = rw h refl

module _ (o : Openssl) where
  open o use {pem, Name, no_name, add_entry, Cert, subject}
  open pem use {Key}

  abbrev pub leaf_template : Crypto o → Cert → Key → Bytes → ℤ → Template Name Key
  leaf_template a ca_cert key cn days = record {
    serial = a.serial;
    lifetime = seconds days;
    key = key;
    issuer = subject ca_cert;
    subject = add_entry no_name (codes "CN") cn;
    basic_constraints = codes "critical,CA:FALSE";
    key_usage = none;
  }

  unfoldable pub sign_certificate : Crypto o → Key → Cert → Key → Bytes → ℤ → Option Cert
  sign_certificate a ca_key ca_cert key cn days =
      if a.new_cert then a.sign (leaf_template a ca_cert key cn days) ca_key else none

  pub sign-sign_certificate :
      (a : Crypto o) (ca_key key : Key) (ca_cert cert : Cert) (cn : Bytes) (days : ℤ)
      → sign_certificate a ca_key ca_cert key cn days ≡ some cert
      → a.sign (leaf_template a ca_cert key cn days) ca_key ≡ some cert
  unfolding sign_certificate
  sign-sign_certificate a ca_key key ca_cert cert cn days e = ground arith
