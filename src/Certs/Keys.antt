-- ===== src/Certs/Keys.antt =====
-- Which password opens a private key.
use ovpn_manager.Prelude.{◌≡◌, ◌≢◌, refl, [], ◌∷◌, none, some, Bytes, ◌⊎◌, inl, inr}
use ovpn_manager.Certs.{Pem, decrypt_private_key, encrypt_private_key}

module _ (pem : Pem) where
  open pem use {Key, write, read}

  -- A key that was encrypted is decrypted to itself, under the same system key and the same
  -- password, where one of the two is not empty.
  pub decrypt-encrypt :
      (encryption_key : Bytes) (key : Key) (password text : Bytes)
      → (encryption_key ≢ []) ⊎ (password ≢ [])
      → encrypt_private_key pem encryption_key key (some password) ≡ some text
      → decrypt_private_key pem encryption_key text (some password) ≡ some key
  unfolding encrypt_private_key decrypt_private_key
  decrypt-encrypt [] key [] text h e = elim h [ inl n ↦ absurd (n refl) | inr n ↦ absurd (n refl) ]
  decrypt-encrypt [] key (c ∷ p) text h e = rw (pem.read-write key (c ∷ p) text e)
  decrypt-encrypt (k ∷ ks) key password text h e = rw (pem.read-write key (k ∷ ks) text e)

  -- Without a password only the system key encrypts, and it decrypts what it encrypted.
  pub decrypt-encrypt_system :
      (encryption_key : Bytes) (key : Key) (text : Bytes)
      → encrypt_private_key pem encryption_key key none ≡ some text
      → decrypt_private_key pem encryption_key text none ≡ some key
  unfolding encrypt_private_key decrypt_private_key
  decrypt-encrypt_system [] key text e = cc
  decrypt-encrypt_system (k ∷ ks) key text e = rw (pem.read-write key (k ∷ ks) text e)
