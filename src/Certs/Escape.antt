-- ===== src/Certs/Escape.antt =====
-- An escaped string between quotes is one SQL literal with the string's own value.
use ovpn_manager.Prelude.{
  ℕ, ◌+◌, ◌≡◌, refl, Bool, true, false, [], ◌∷◌, ◌++◌, Option, none, some, ◌==◌, if◌then◌else◌,
  Bytes, length, arith,
}
use ovpn_manager.Certs.{quote_count, escape_bytes, escape_sql_string}

push : ℕ → Option (Bytes × Bytes) → Option (Bytes × Bytes)
push c none = none
push c (some (v, rest)) = some (c ∷ v, rest)

-- PostgreSQL's reading of a standard literal, from behind the opening quote: a doubled quote is a
-- quote, a single one ends the literal. The value and what follows it; `none` if it never ends.
-- The flag says that a quote has just been read.
unfoldable pub literal : Bool → Bytes → Option (Bytes × Bytes)
unfolding push
literal false [] = none
literal true [] = some ([], [])
literal false (c ∷ s) =
    let quoted = literal true s in
    let plain = literal false s in if c == b'\'' then quoted else push c plain
literal true (c ∷ s) =
    let plain = literal false s in if c == b'\'' then push b'\'' plain else some ([], c ∷ s)

-- What follows the literal does not go on with a quote.
abbrev pub StartsClear : Bytes → Type 0
StartsClear [] = Unit
StartsClear (c ∷ s) = (c == b'\'') ≡ false

literal-escape :
    (s rest : Bytes)
    → StartsClear rest
    → literal false (escape_bytes s ++ b'\'' ∷ rest) ≡ some (s, rest)
unfolding literal escape_bytes
literal-escape [] [] h = refl
literal-escape [] (c ∷ rest) h = ground arith
literal-escape (c ∷ s) rest h = ground (arith, literal-escape s rest)

length-escape : (s : Bytes) → length (escape_bytes s) ≡ length s + quote_count s
unfolding escape_bytes quote_count
length-escape [] = omega arith
length-escape (c ∷ s) = ground (arith, length-escape s)

-- What `escape_sql_string` gives, put between quotes, is read back by the database as the string
-- itself: whatever the string holds, it does not end the literal. The bytes and their NUL fill the
-- memory that was asked for exactly.
pub escape_sql_string-literal :
    (str rest : Bytes)
    → StartsClear rest
    → (text : Bytes) × (size : ℕ) × (escape_sql_string (some str) ≡ some (text, size))
      × (literal false (text ++ b'\'' ∷ rest) ≡ some (str, rest))
      × (length text + 1 ≡ size)
unfolding escape_sql_string
escape_sql_string-literal str rest h = (
  escape_bytes str,
  length str + quote_count str + 1,
  refl,
  literal-escape str rest h,
  omega (arith, length-escape str),
)
