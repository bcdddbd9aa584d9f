-- ===== src/Logger.antt =====
-- master/logger.c: which messages are logged, and what is masked in them.
pub mod Texts
pub mod Ends
pub mod Masked
use ovpn_manager.Prelude.{
  ℕ, zero, suc, ◌-◌, Bool, true, false, not, ◌&&◌, ◌||◌, List, [], ◌∷◌, ◌++◌, Option, none, some,
  ◌==◌, ltb, leb, if◌then◌else◌, Bytes, codes, starts_with, is_empty, take, drop, length, find_char,
  find_text,
}
use ovpn_manager.Prelude.Int.{is_space}

-- `level` is LOG_DEBUG 7, LOG_INFO 6, LOG_WARNING 4 or LOG_ERR 3.
unfoldable pub msg_level : ℕ → ℕ
msg_level level = if level == 7 then 0 else if level == 6 then 1 else if level == 4 then 2 else 3

unfoldable pub should_log : ℕ → ℕ → Bool
unfolding msg_level
should_log level_value level = leb level_value (msg_level level)

-- "[PRIVATE KEY REDACTED]\n"
abbrev pub redacted : Bytes
redacted = codes "[PRIVATE KEY REDACTED]" ++ 10 ∷ []

-- `line_end`: behind the newline, or the end of the text.
unfoldable pub line_end : Bytes → Bytes
unfolding find_char
line_end s = elim (find_char 10 s) [ none ↦ [] | some t ↦ drop 1 t ]

-- The block from `s` on, up to `behind`, where it is not shorter than its replacement.
unfoldable pub replace_block : Bytes → Bytes → Bytes
replace_block s behind =
    if leb (length redacted) (length s - length behind) then redacted ++ behind else s

unfoldable pub redact : Bytes → Bytes
unfolding find_text line_end replace_block
redact s =
    if starts_with (codes "-----BEGIN") s
    then elim (find_text (codes "-----END") s) [ none ↦ s | some e ↦ replace_block s (line_end e) ]
    else s

-- `while (*q && (*q == ' ' || *q == ':' || *q == '=')) q++`
unfoldable pub skip_marks : Bytes → Bytes
skip_marks [] = []
skip_marks (c ∷ s) =
    let rest = skip_marks s in if c == b' ' || (c == b':' || c == b'=') then rest else c ∷ s

-- `r`: the text behind the password.
unfoldable pub behind_password : Bytes → Bytes
unfolding find_char
behind_password q = elim (find_char b' ' q) [
  | some r ↦ r
  | none ↦ elim (find_char b',' q) [ some r ↦ r | none ↦ [] ]
]

-- The text `s`, which holds `q` at its end, with the password between `q` and `r` replaced.
unfoldable pub replace_password : Bytes → Bytes → Bytes → Bytes
replace_password s q r =
    let size = length q - length r in
    if ltb 0 size && ltb size 20
    then take (length s - length q) s ++ (codes "[PASSWORD]" ++ r)
    else s

unfoldable pub mask_found : Bytes → Bytes → Bytes
unfolding behind_password replace_password
mask_found s [] = s
mask_found s (c ∷ q) =
    if is_space c then s else replace_password s (c ∷ q) (behind_password (c ∷ q))

unfoldable pub mask_password : Bytes → Bytes
unfolding mask_found skip_marks
mask_password s =
    if starts_with (codes "password") s then mask_found s (skip_marks (drop 8 s)) else s

-- The text from `p` on behind one round of the loop, before `p++`.
unfoldable pub mask_step : Bytes → Bytes
unfolding redact mask_password
mask_step s = mask_password (redact s)

-- `none`: the fuel ran out.
abbrev pub with_head : ℕ → Option Bytes → Option Bytes
with_head c none = none
with_head c (some s) = some (c ∷ s)

-- `mask_sensitive` from `p` on.
unfoldable pub mask_sensitive : ℕ → Bytes → Option Bytes
unfolding mask_step
mask_sensitive zero s = none
mask_sensitive (suc fuel) [] = some []
mask_sensitive (suc fuel) (c ∷ s) = elim (mask_step (c ∷ s)) [
  | [] ↦ some []
  | d ∷ t ↦ with_head d (mask_sensitive fuel t)
]

-- The text that is written for a message; `none` if the level is not logged. 4095 bytes of the
-- formatted text are kept.
unfoldable pub log_message : ℕ → ℕ → ℕ → Bytes → Option Bytes
unfolding should_log mask_sensitive
log_message fuel level_value level message =
    if should_log level_value level
    then (if ltb 0 level_value
        then mask_sensitive fuel (take 4095 message)
        else some (take 4095 message))
    else none
