-- ===== src/Setup/Keys.antt =====
-- The random keys.
use ovpn_manager.Prelude.{
  ℕ, suc, ◌-◌, ◌%◌, ◌≤◌, ◌≡◌, refl, ap, ◌∙◌, true, false, [], ◌∷◌, Option, none, some, Bytes,
  is_empty, map, take, length, get_or, contains, All, take-of_le, passes_until, passes_until-at,
  arith,
}
use ovpn_manager.Setup.{charset, charset_at, generate_random_key}

charset_table : passes_until (λ i. contains (get_or charset i 0) charset) 62 ≡ true
unfolding passes_until
charset_table = refl

charset_at-in_charset : (b : ℕ) → contains (charset_at b) charset ≡ true
unfolding charset_at
charset_at-in_charset b =
    passes_until-at (λ i. contains (get_or charset i 0) charset) 62 (b % 62) (omega arith)
      charset_table

All-charset : (rs : Bytes) → All (λ c. contains c charset ≡ true) (map charset_at rs)
All-charset [] = tt
All-charset (r ∷ rs) = (charset_at-in_charset r, All-charset rs)

length-map : (f : ℕ → ℕ) (rs : Bytes) → length (map f rs) ≡ length rs
length-map f [] = refl
length-map f (r ∷ rs) = ap suc (length-map f rs)

random_key :
    (rs : Bytes) (time len : ℕ)
    → length rs ≡ 32
    → 33 ≤ len
    → generate_random_key (some rs) time len ≡ map charset_at rs
unfolding generate_random_key
random_key rs time len size room =
    ap (λ t. take (len - 1) (map charset_at t)) (take-of_le 32 rs (omega arith))
    ∙ take-of_le (len - 1) (map charset_at rs) (omega (arith, length-map charset_at rs))

-- In an array of 33 bytes or more the key has 32 characters, each of the charset.
pub generate_random_key_lem :
    (rs : Bytes) (time len : ℕ)
    → length rs ≡ 32
    → 33 ≤ len
    → (length (generate_random_key (some rs) time len) ≡ 32)
      × All (λ c. contains c charset ≡ true) (generate_random_key (some rs) time len)
generate_random_key_lem rs time len size room =
    rw (random_key rs time len size room) (length-map charset_at rs ∙ size, All-charset rs)

-- The key in the daemon's array of 64 bytes is not empty.
pub is_empty-generate_random_key :
    (random_bytes : Option Bytes) (time : ℕ)
    → ((rs : Bytes) → random_bytes ≡ some rs → length rs ≡ 32)
    → is_empty (generate_random_key random_bytes time 64) ≡ false
unfolding generate_random_key
is_empty-generate_random_key none time full = refl
is_empty-generate_random_key (some []) time full = absurd (omega (arith, full [] refl))
is_empty-generate_random_key (some (r ∷ rs)) time full = refl
