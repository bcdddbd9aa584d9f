-- ===== src/Generate/Arrays.antt =====
-- The lines that are pushed for an array of the database.
use ovpn_manager.Prelude.{
  ℕ, ◌||◌, if◌then◌else◌, ◌≡◌, refl, sym, ap, ◌∙◌, Bool, true, false, not, ◌&&◌, List, [], ◌∷◌,
  ◌++◌, some, ◌==◌, ltb, Bytes, codes, eqb, is_empty, contains, contains-append, concat, map, All,
  append_assoc, append-nil, arith,
}
use ovpn_manager.Generate.Text.{
  in_braces, array_content, token_of, tokens_of, skip_spaces, push_lines, push_array,
}

-- An element as it is printed in an array: not empty, with no comma and no space in front.
unfoldable pub is_plain : Bytes → Bool
is_plain [] = false
is_plain (c ∷ s) = not (c == b' ') && not (contains b',' (c ∷ s))

abbrev pub IsPlain : Bytes → Type 0
IsPlain t = is_plain t ≡ true

-- The elements with a comma between them.
unfoldable pub joined : List Bytes → Bytes
joined [] = []
joined (t ∷ []) = t
joined (t ∷ u ∷ ts) = t ++ (b',' ∷ joined (u ∷ ts))

-- The digits, '.', '/', ':' and the space: the bytes of addresses, networks and masks.
unfoldable pub is_address_byte : ℕ → Bool
is_address_byte c = c == b' ' || (ltb 45 c && ltb c 59)

unfoldable pub all_address : Bytes → Bool
unfolding is_address_byte
all_address [] = true
all_address (c ∷ s) = is_address_byte c && all_address s

-- An element that is not empty and has only those bytes.
unfoldable pub is_word : Bytes → Bool
unfolding all_address
is_word t = not (is_empty t) && all_address t

abbrev pub IsWord : Bytes → Type 0
IsWord t = is_word t ≡ true

-- PostgreSQL puts an element with a space in quotes.
unfoldable pub printed : Bytes → Bytes
printed t = if contains b' ' t then 34 ∷ (t ++ (34 ∷ [])) else t

-- The text of an array: "{a,b,c}".
unfoldable pub array_text : List Bytes → Bytes
unfolding printed
array_text ts = b'{' ∷ (joined (map printed ts) ++ (b'}' ∷ []))

in_braces-append : (s : Bytes) → in_braces (s ++ (b'}' ∷ [])) ≡ some s
unfolding in_braces
in_braces-append [] = refl
in_braces-append (c ∷ []) = refl
in_braces-append (c ∷ d ∷ s) = rw (in_braces-append (d ∷ s)) refl

-- A run without a comma is gathered.
tokens_of-append :
    (acc t rest : Bytes)
    → contains b',' t ≡ false
    → tokens_of acc (t ++ rest) ≡ tokens_of (acc ++ t) rest
unfolding tokens_of
tokens_of-append acc [] rest h = rw (append-nil acc) refl
tokens_of-append acc (c ∷ t) rest h =
    let other : (c == b',') ≡ false = ground arith in
    rw other (
      tokens_of-append (acc ++ (c ∷ [])) t rest (ground arith)
      ∙ ap (λ a. tokens_of a rest) (append_assoc acc (c ∷ []) t))

plain-comma : (t : Bytes) → IsPlain t → contains b',' t ≡ false
unfolding is_plain
plain-comma [] h = cc
plain-comma (c ∷ s) h = ground arith

token_of-plain : (t : Bytes) (ts : List Bytes) → IsPlain t → token_of t ts ≡ t ∷ ts
unfolding token_of is_plain
token_of-plain [] ts h = cc
token_of-plain (c ∷ s) ts h = refl

tokens_of-joined : (ts : List Bytes) → All IsPlain ts → tokens_of [] (joined ts) ≡ ts
unfolding joined tokens_of
tokens_of-joined [] h = refl
tokens_of-joined (t ∷ []) h =
    let run = tokens_of-append [] t [] (plain-comma t h.0) in
    ap (tokens_of []) (sym (append-nil t)) ∙ run ∙ token_of-plain t [] h.0
tokens_of-joined (t ∷ u ∷ ts) h =
    let run = tokens_of-append [] t (b',' ∷ joined (u ∷ ts)) (plain-comma t h.0) in
    run ∙ ap (token_of t) (tokens_of-joined (u ∷ ts) h.1) ∙ token_of-plain t (u ∷ ts) h.0

skip_spaces-plain : (t : Bytes) → IsPlain t → skip_spaces t ≡ t
unfolding skip_spaces is_plain
skip_spaces-plain [] h = cc
skip_spaces-plain (c ∷ s) h = ground arith

push_lines-plain :
    (front back : Bytes) (ts : List Bytes)
    → All IsPlain ts
    → push_lines front back ts ≡ concat (map (λ t. front ++ (t ++ back)) ts)
unfolding push_lines
push_lines-plain front back [] h = refl
push_lines-plain front back (t ∷ ts) h =
    rw (skip_spaces-plain t h.0, append-nil back, push_lines-plain front back ts h.1) refl

joined-full : (t : Bytes) (ts : List Bytes) → IsPlain t → is_empty (joined (t ∷ ts)) ≡ false
unfolding joined is_plain
joined-full [] ts h = cc
joined-full (c ∷ s) [] h = refl
joined-full (c ∷ s) (u ∷ ts) h = refl

not_braces : (s : Bytes) → is_empty s ≡ false → eqb (b'{' ∷ (s ++ (b'}' ∷ []))) (codes "{}") ≡ false
unfolding eqb
not_braces [] h = cc
not_braces (c ∷ []) h = ground arith
not_braces (c ∷ d ∷ s) h = ground arith

push_array-joined :
    (front back : Bytes) (ts : List Bytes)
    → All IsPlain ts
    → push_array front back (b'{' ∷ (joined ts ++ (b'}' ∷ [])))
      ≡ concat (map (λ t. front ++ (t ++ back)) ts)
unfolding push_array array_content eqb joined
push_array-joined front back [] h = refl
push_array-joined front back (t ∷ ts) h =
    rw
      (
        not_braces (joined (t ∷ ts)) (joined-full t ts h.0),
        in_braces-append (joined (t ∷ ts)),
        tokens_of-joined (t ∷ ts) h,
      )
      (push_lines-plain front back (t ∷ ts) h)

map-map :
    (f : Bytes → Bytes) (g : Bytes → Bytes) (ts : List Bytes)
    → map f (map g ts) ≡ map (λ t. f (g t)) ts
map-map f g [] = refl
map-map f g (t ∷ ts) = ap (λ r. f (g t) ∷ r) (map-map f g ts)

all_address-comma : (t : Bytes) → all_address t ≡ true → contains b',' t ≡ false
unfolding all_address is_address_byte
all_address-comma [] h = refl
all_address-comma (c ∷ s) h = ground (arith, all_address-comma s)

printed-IsPlain : (t : Bytes) → IsWord t → IsPlain (printed t)
unfolding is_word printed is_plain
printed-IsPlain [] h = cc
printed-IsPlain (c ∷ s) h =
    ground (arith, all_address-comma (c ∷ s), contains-append b',' (c ∷ s) (34 ∷ []))

map-printed-IsPlain : (ts : List Bytes) → All IsWord ts → All IsPlain (map printed ts)
map-printed-IsPlain [] h = tt
map-printed-IsPlain (t ∷ ts) h = (printed-IsPlain t h.0, map-printed-IsPlain ts h.1)

-- The text that PostgreSQL prints for an array of elements is pushed as one line for each element,
-- in order, without the array's braces and commas. The quotes that PostgreSQL puts around an
-- element with a space stay in the line, inside the quotes of the directive. The elements are not
-- empty and have only digits, '.', '/', ':' and spaces.
pub push_array-array_text :
    (front back : Bytes) (ts : List Bytes)
    → All IsWord ts
    → push_array front back (array_text ts)
      ≡ concat
          (map (λ t. front ++ ((if contains b' ' t then 34 ∷ (t ++ (34 ∷ [])) else t) ++ back)) ts)
unfolding array_text printed
push_array-array_text front back ts h =
    push_array-joined front back (map printed ts) (map-printed-IsPlain ts h)
    ∙ ap concat (map-map (λ t. front ++ (t ++ back)) printed ts)
