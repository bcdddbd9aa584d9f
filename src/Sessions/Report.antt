-- ===== src/Sessions/Report.antt =====
-- master/monitor.c, split_line and the part of update_sessions that reads the status report.
use ovpn_manager.Prelude.{
  ℕ, suc, ◌-◌, ◌%◌, ◌^◌, not, ◌&&◌, List, [], ◌∷◌, ◌++◌, Option, none, some, ◌==◌, ltb, leb,
  if◌then◌else◌, Bytes, codes, starts_with, is_empty, take, drop, length, get_or,
}
use ovpn_manager.Prelude.Int.{is_space, digits_value}

-- `split_line` from inside a field: `cur` is what stands between `start` and `p`.
unfoldable pub split_from : ℕ → ℕ → Bytes → Bytes → List Bytes
split_from max_fields count cur [] =
    if ltb count max_fields && not (is_empty cur) then cur ∷ [] else []
split_from max_fields count cur (c ∷ s) =
    let next_field = split_from max_fields (suc count) [] s in
    let same_field = split_from max_fields count (cur ++ c ∷ []) s in
    if c == b',' then cur ∷ (if leb max_fields (suc count) then [] else next_field) else same_field

unfoldable pub split_line : Bytes → ℕ → List Bytes
unfolding split_from
split_line line max_fields = split_from max_fields 0 [] line

-- The lines of the report: each ends at a newline, or at the end of the text.
unfoldable pub lines_from : Bytes → Bytes → List Bytes
lines_from cur [] = if is_empty cur then [] else cur ∷ []
lines_from cur (c ∷ s) =
    let next_line = lines_from [] s in
    let same_line = lines_from (cur ++ c ∷ []) s in
    if c == b'\n' then cur ∷ next_line else same_line

abbrev ullong_max : ℕ
ullong_max = 2 ^ 64 - 1

unfoldable pub saturate : ℕ → ℕ
saturate n = if ltb n (2 ^ 64) then n else ullong_max

-- `strtoull(s, NULL, 10)`: the largest value on overflow, and a negated number wraps.
unfoldable pub strtoull : Bytes → ℕ
unfolding digits_value saturate
strtoull [] = 0
strtoull (c ∷ s) =
    let rest = strtoull s in
    let size = digits_value 0 s in
    let negated = if ltb size (2 ^ 64) then (2 ^ 64 - size) % 2 ^ 64 else ullong_max in
    if is_space c
    then rest
    else if c == b'-'
    then negated
    else if c == b'+'
    then saturate size
    else saturate (digits_value 0 (c ∷ s))

-- What is in front of the first colon.
unfoldable pub before_colon : Bytes → Bytes
before_colon [] = []
before_colon (c ∷ s) = let rest = before_colon s in if c == b':' then [] else c ∷ rest

pub record Client : Type 0 where
  pub common_name : Bytes
  pub virtual_ip : Bytes
  pub ip_only : Bytes
  pub bytes_recv : ℕ
  pub bytes_sent : ℕ
  pub time_str : Bytes

-- The fields of a line behind `CLIENT_LIST,`; `none` when there are fewer than seven.
unfoldable pub client_of : List Bytes → Option Client
unfolding strtoull before_colon
client_of fields =
    if ltb (length fields) 7
    then none
    else some (record {
      common_name = get_or fields 0 [];
      virtual_ip = get_or fields 2 [];
      ip_only = before_colon (take 63 (get_or fields 1 []));
      bytes_recv = strtoull (get_or fields 4 []);
      bytes_sent = strtoull (get_or fields 5 []);
      time_str = get_or fields 6 [];
    })

-- A line of the report, cut to the buffer `line[4096]`.
unfoldable pub parse_line : Bytes → Option Client
unfolding split_line client_of
parse_line whole =
    let line = take 4095 whole in
    if starts_with (codes "CLIENT_LIST,") line
    then client_of (split_line (drop 12 line) 20)
    else none

-- The clients of a report, in order.
unfoldable pub clients_of : List Bytes → List Client
unfolding parse_line
clients_of [] = []
clients_of (l ∷ ls) =
    let rest = clients_of ls in elim (parse_line l) [ none ↦ rest | some c ↦ c ∷ rest ]

unfoldable pub report : Bytes → List Client
unfolding clients_of lines_from
report status_buf = clients_of (lines_from [] status_buf)
