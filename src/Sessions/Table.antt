-- ===== src/Sessions/Table.antt =====
-- master/monitor.c, the part of update_sessions that writes the table vpn_sessions. A row whose
-- client_profile_id has been set to NULL is not modelled: no statement below matches it but
-- the last one without a list.
use ovpn_manager.Prelude.{
  ℕ, suc, Bool, true, false, not, ◌&&◌, List, [], ◌∷◌, ◌++◌, Option, none, some, ◌==◌, ltb,
  if◌then◌else◌, Bytes, eqb, length, contains,
}
use ovpn_manager.Prelude.Decimal.{decimal}
use ovpn_manager.Sessions.Report.{Client, report}

-- A row of vpn_client_profiles joined with its row of vpn_users.
pub record Profile : Type 0 where
  pub username : Bytes
  pub config_id : ℕ
  pub user_id : ℕ
  pub profile_id : ℕ

-- A row of vpn_sessions; `online` says that disconnected_at is NULL.
pub record Session : Type 0 where
  pub id : ℕ
  pub profile_id : ℕ
  pub user_id : ℕ
  pub config_id : ℕ
  pub virtual_ip : Bytes
  pub real_ip : Bytes
  pub connected_since : Bytes
  pub bytes_sent : ℕ
  pub bytes_received : ℕ
  pub online : Bool

-- The table, and the next value of its serial column.
pub record Store : Type 0 where
  pub sessions : List Session
  pub next_id : ℕ

-- Which statements the database accepts in this round: the query for a user, and for a profile the
-- query for its session, the update and the insertion; then the last update. `time_buf` is the
-- text of strptime, mktime and strftime for a time field.
pub record Answers : Type 0 where
  pub user_found : Bytes → Bool
  pub session_found : ℕ → Bool
  pub updated : ℕ → Bool
  pub inserted : ℕ → Bool
  pub marked : Bool
  pub time_buf : Bytes → Bytes

-- SELECT u.id, cp.id ... WHERE u.username = $1 AND cp.config_id = $2
unfoldable pub find_profile : Bytes → ℕ → List Profile → Option Profile
find_profile name cfg [] = none
find_profile name cfg (p ∷ ps) =
    if eqb p.username name && p.config_id == cfg then some p else find_profile name cfg ps

-- SELECT id FROM vpn_sessions WHERE client_profile_id = %d AND disconnected_at IS NULL
unfoldable pub find_session : ℕ → List Session → Option ℕ
find_session pid [] = none
find_session pid (s ∷ ss) =
    if s.profile_id == pid && s.online then some s.id else find_session pid ss

-- UPDATE vpn_sessions SET bytes_sent = $1, bytes_received = $2 WHERE id = $3
unfoldable pub update_session : ℕ → ℕ → ℕ → List Session → List Session
update_session sid sent recv [] = []
update_session sid sent recv (s ∷ ss) =
    (if s.id == sid then record s { bytes_sent = sent; bytes_received = recv } else s)
    ∷ update_session sid sent recv ss

unfoldable pub new_session : Answers → ℕ → Client → Profile → ℕ → Session
new_session a cfg c p id = record {
  id = id;
  profile_id = p.profile_id;
  user_id = p.user_id;
  config_id = cfg;
  virtual_ip = c.virtual_ip;
  real_ip = c.ip_only;
  connected_since = a.time_buf c.time_str;
  bytes_sent = c.bytes_sent;
  bytes_received = c.bytes_recv;
  online = true;
}

-- INSERT INTO vpn_sessions ...
unfoldable pub insert_session : Answers → ℕ → Client → Profile → Store → Store
insert_session a cfg c p st =
    if a.inserted p.profile_id
    then record {
      sessions = st.sessions ++ new_session a cfg c p st.next_id ∷ [];
      next_id = suc st.next_id;
    }
    else st

-- The two branches behind `has_online`, for the session that was found, if any.
unfoldable pub save_client : Option ℕ → Answers → ℕ → Client → Profile → Store → Store
unfolding insert_session
save_client (some sid) a cfg c p st =
    if a.updated p.profile_id
    then record st { sessions = update_session sid c.bytes_sent c.bytes_recv st.sessions }
    else st
save_client none a cfg c p st = insert_session a cfg c p st

unfoldable pub found_session : Answers → Profile → Store → Option ℕ
found_session a p st =
    if a.session_found p.profile_id then find_session p.profile_id st.sessions else none

-- The state of the loop: the store and `online_profiles`.
pub record Sweep : Type 0 where
  pub store : Store
  pub online_profiles : List ℕ

abbrev pub max_online : ℕ
max_online = 256

unfoldable pub add_online : ℕ → List ℕ → List ℕ
add_online pid online = if ltb (length online) max_online then online ++ pid ∷ [] else online

-- The rows that the query for a client's user gives.
unfoldable pub lookup_profile : Answers → ℕ → List Profile → Client → Option Profile
lookup_profile a cfg ps c =
    if a.user_found c.common_name then find_profile c.common_name cfg ps else none

unfoldable pub sweep_profile : Option Profile → Answers → ℕ → Client → Sweep → Sweep
unfolding save_client add_online
sweep_profile none a cfg c w = w
sweep_profile (some p) a cfg c w = record {
  store = save_client (found_session a p w.store) a cfg c p w.store;
  online_profiles = add_online p.profile_id w.online_profiles;
}

-- The loop over the report.
unfoldable pub sweep : Answers → ℕ → List Profile → List Client → Sweep → Sweep
unfolding sweep_profile
sweep a cfg ps [] w = w
sweep a cfg ps (c ∷ cs) w = sweep a cfg ps cs (sweep_profile (lookup_profile a cfg ps c) a cfg c w)

-- UPDATE vpn_sessions SET disconnected_at = NOW() WHERE config_id = $1 AND disconnected_at IS NULL
-- AND client_profile_id != ALL($2)
unfoldable pub disconnect_others : ℕ → List ℕ → List Session → List Session
disconnect_others cfg online [] = []
disconnect_others cfg online (s ∷ ss) =
    (if s.config_id == cfg && s.online && not (contains s.profile_id online)
      then record s { online = false }
      else s)
    ∷ disconnect_others cfg online ss

-- The same with no list, for a report with no known client.
unfoldable pub disconnect_all : ℕ → List Session → List Session
disconnect_all cfg [] = []
disconnect_all cfg (s ∷ ss) =
    (if s.config_id == cfg && s.online then record s { online = false } else s)
    ∷ disconnect_all cfg ss

-- The loop with `strcat` that builds `{1,2,3}`; `sep` is what stands in front of the next number.
unfoldable pub ids_onto : Bytes → List ℕ → Bytes
ids_onto sep [] = []
ids_onto sep (i ∷ is) = (sep ++ decimal i) ++ ids_onto (b',' ∷ []) is

unfoldable pub id_list : List ℕ → Bytes
unfolding ids_onto
id_list ids = b'{' ∷ (ids_onto [] ids ++ b'}' ∷ [])

-- sizeof(id_list)
abbrev pub id_list_size : ℕ
id_list_size = 1024

-- The text and its NUL fit the array.
unfoldable pub fits_id_list : List ℕ → Bool
unfolding id_list
fits_id_list ids = ltb (length (id_list ids)) id_list_size

unfoldable pub disconnect : ℕ → List ℕ → Store → Store
disconnect cfg online st = record st {
  sessions =
      if ltb 0 (length online)
      then disconnect_others cfg online st.sessions
      else disconnect_all cfg st.sessions;
}

-- The last UPDATE. Where the list of ids does not fit, the code writes past its array, and nothing is
-- known of what follows; here the table stays as it is.
unfoldable pub mark_disconnected : Bool → ℕ → List ℕ → Store → Store
unfolding disconnect
mark_disconnected accepted cfg online st =
    if accepted && fits_id_list online then disconnect cfg online st else st

unfoldable pub update_sessions : Answers → ℕ → List Profile → Bytes → Store → Store
unfolding sweep mark_disconnected
update_sessions a cfg ps status_buf st =
    let w = sweep a cfg ps (report status_buf) (record { store = st; online_profiles = [] }) in
    mark_disconnected a.marked cfg w.online_profiles w.store
