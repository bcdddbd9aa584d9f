-- ===== src/Tests/SessionTests.antt =====
-- A status report with two clients against a small table.
use ovpn_manager.Prelude.{
  ℕ, suc, ◌+◌, ◌≤◌, ◌<◌, ◌≡◌, refl, true, List, [], ◌∷◌, arith, length, Bytes, codes, eqb,
  starts_with, All, zero,
}
use ovpn_manager.Prelude.Int.{digits_value}
use ovpn_manager.Sessions.Report.{
  report, lines_from, clients_of, parse_line, client_of, split_line, split_from, strtoull, saturate,
  before_colon,
}
use ovpn_manager.Sessions.Table.{
  id_list, id_list_size, fits_id_list, Profile, Store, Answers, lookup_profile, find_profile,
  update_sessions,
}
use ovpn_manager.Sessions.Counts.{open_count, open_in}
use ovpn_manager.Prelude.Decimal.{decimal}
use ovpn_manager.Sessions.Online.{
  recorded, known_profiles, IsSingle, update_sessions-IsSingle, update_sessions-recorded,
  update_sessions-unrecorded,
}
use ovpn_manager.Sessions.Split.{join, split_line-join}
use ovpn_manager.Sessions.IdList.{id_list_overflow}

abbrev status : Bytes
status =
    codes
      "TITLE,OpenVPN\nCLIENT_LIST,ann,9.8.7.6:4711,10.8.0.2,,120,450,2024-05-01 10:00:00,0\nCLIENT_LIST,zed,9.8.7.5:1,10.8.0.9,,1,2,2024-05-01 10:00:00,0\nEND\n"

abbrev profiles : List Profile
profiles =
    record { username = codes "ann"; config_id = 1; user_id = 10; profile_id = 100 }
    ∷ record { username = codes "bob"; config_id = 1; user_id = 11; profile_id = 101 }
    ∷ []

-- Bob is open from an earlier report.
abbrev before : Store
before = record {
  sessions =
      record {
        id = 7;
        profile_id = 101;
        user_id = 11;
        config_id = 1;
        virtual_ip = codes "10.8.0.3";
        real_ip = codes "9.8.7.4";
        connected_since = codes "2024-05-01 09:00:00";
        bytes_sent = 1;
        bytes_received = 2;
        online = true;
      }
      ∷ [];
  next_id = 8;
}

abbrev willing : Answers
willing = record {
  user_found = λ _. true;
  session_found = λ _. true;
  updated = λ _. true;
  inserted = λ _. true;
  marked = true;
  time_buf = λ t. t;
}

recorded-run : recorded willing 1 profiles status ≡ 100 ∷ []
unfolding known_profiles lookup_profile find_profile report lines_from clients_of parse_line
    client_of split_line split_from starts_with eqb strtoull saturate before_colon digits_value
recorded-run = refl

before-IsSingle : IsSingle before.sessions
before-IsSingle j = ground arith

update_sessions-IsSingle_example :
    IsSingle (update_sessions willing 1 profiles status before).sessions
update_sessions-IsSingle_example =
    update_sessions-IsSingle willing 1 profiles status before (λ _. refl) before-IsSingle

update_sessions-recorded_example :
    1 ≤ open_count 100 (update_sessions willing 1 profiles status before).sessions
unfolding known_profiles lookup_profile find_profile report lines_from clients_of parse_line
    client_of split_line split_from starts_with eqb strtoull saturate before_colon digits_value
    fits_id_list decimal
update_sessions-recorded_example =
    update_sessions-recorded willing 1 profiles status before 100 (λ _. refl) refl refl

update_sessions-unrecorded_example :
    open_in 1 101 (update_sessions willing 1 profiles status before).sessions ≡ 0
unfolding known_profiles lookup_profile find_profile report lines_from clients_of parse_line
    client_of split_line split_from starts_with eqb strtoull saturate before_colon digits_value
    fits_id_list decimal
update_sessions-unrecorded_example =
    update_sessions-unrecorded willing 1 profiles status before 101 refl refl refl

split_line-join_example :
    split_line (join (codes "ann" ∷ codes "" ∷ codes "9.8.7.6:1" ∷ [])) 2
    ≡ codes "ann" ∷ codes "" ∷ []
split_line-join_example =
    split_line-join (codes "ann" ∷ codes "" ∷ codes "9.8.7.6:1" ∷ []) 2 (refl, (refl, (refl, refl)))
      (omega arith)

-- 205 profiles with the ids 1000 and up.
abbrev ids_from : ℕ → List ℕ
ids_from zero = []
ids_from (suc n) = (1000 + n) ∷ ids_from n

ids_from-All : (n : ℕ) → All (λ i. 1000 ≤ i) (ids_from n)
ids_from-All zero = tt
ids_from-All (suc n) = (omega arith, ids_from-All n)

id_list_overflow_example : id_list_size < length (id_list (ids_from 205)) + 1
id_list_overflow_example = id_list_overflow (ids_from 205) (omega arith) (ids_from-All 205)
