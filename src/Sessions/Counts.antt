-- ===== src/Sessions/Counts.antt =====
-- How many open sessions a profile has, before and after each statement.
use ovpn_manager.Prelude.{
  Bool-cases, ℕ, ◌+◌, ◌≤◌, ◌≡◌, refl, Bool, true, false, ◌&&◌, List, [], ◌∷◌, ◌++◌, none, some,
  ◌==◌, if◌then◌else◌, inl, inr, arith, contains, Option-cases, ==_iff,
}
use ovpn_manager.Sessions.Report.{Client}
use ovpn_manager.Sessions.Table.{
  Profile, Session, Store, Answers, find_session, update_session, new_session, insert_session,
  save_client, found_session, disconnect_others, disconnect_all, disconnect, fits_id_list,
  mark_disconnected,
}

-- The open sessions of profile `j`.
abbrev pub open_count : ℕ → List Session → ℕ
open_count j [] = 0
open_count j (s ∷ ss) = (if s.profile_id == j && s.online then 1 else 0) + open_count j ss

-- Those of configuration `cfg`.
abbrev pub open_in : ℕ → ℕ → List Session → ℕ
open_in cfg j [] = 0
open_in cfg j (s ∷ ss) =
    (if s.config_id == cfg && s.profile_id == j && s.online then 1 else 0) + open_in cfg j ss

open_count-append :
    (j : ℕ) (xs ys : List Session) → open_count j (xs ++ ys) ≡ open_count j xs + open_count j ys
open_count-append j [] ys = omega arith
open_count-append j (x ∷ xs) ys = omega (arith, open_count-append j xs ys)

open_count-update_session :
    (j sid sent recv : ℕ) (ss : List Session)
    → open_count j (update_session sid sent recv ss) ≡ open_count j ss
unfolding update_session
open_count-update_session j sid sent recv [] = refl
open_count-update_session j sid sent recv (s ∷ ss) =
    ground (arith, open_count-update_session j sid sent recv ss)

-- The query finds a session exactly when one is open.
find_session-none : (j : ℕ) (ss : List Session) → find_session j ss ≡ none → open_count j ss ≡ 0
unfolding find_session
find_session-none j [] h = refl
find_session-none j (s ∷ ss) h = ground (arith, find_session-none j ss)

find_session-some :
    (j : ℕ) (ss : List Session) {sid : ℕ} → find_session j ss ≡ some sid → 1 ≤ open_count j ss
unfolding find_session
find_session-some j [] h = absurd (ground arith)
find_session-some j (s ∷ ss) {sid} h = ground (arith, find_session-some j ss {sid = sid})

open_count-insert_session :
    (a : Answers) (cfg : ℕ) (c : Client) (p : Profile) (st : Store) (j : ℕ)
    → open_count j (insert_session a cfg c p st).sessions
      ≡ open_count j st.sessions + (if a.inserted p.profile_id && p.profile_id == j then 1 else 0)
unfolding insert_session new_session
open_count-insert_session a cfg c p st j =
    ground (arith, open_count-append j st.sessions (new_session a cfg c p st.next_id ∷ []))

open_count-save_some :
    (sid : ℕ) (a : Answers) (cfg : ℕ) (c : Client) (p : Profile) (st : Store) (j : ℕ)
    → open_count j (save_client (some sid) a cfg c p st).sessions ≡ open_count j st.sessions
unfolding save_client
open_count-save_some sid a cfg c p st j =
    ground (arith, open_count-update_session j sid c.bytes_sent c.bytes_recv st.sessions)

-- What saving one client does to the open sessions: no other profile's number changes. That of its
-- own profile does not fall, is not zero if insertions are accepted, and does not pass one
-- if the query is answered and it was not over one before.
pub record Saved (a : Answers) (pid : ℕ) (before after : List Session) : Type 0 where
  pub others : (j : ℕ) → (pid == j) ≡ false → open_count j after ≡ open_count j before
  pub grows : open_count pid before ≤ open_count pid after
  pub there : a.inserted pid ≡ true → 1 ≤ open_count pid after
  pub one : a.session_found pid ≡ true → open_count pid before ≤ 1 → open_count pid after ≤ 1

found_session-none :
    (a : Answers) (p : Profile) (st : Store)
    → found_session a p st ≡ none
    → a.session_found p.profile_id ≡ true
    → open_count p.profile_id st.sessions ≡ 0
unfolding found_session
found_session-none a p st e answered = find_session-none p.profile_id st.sessions (ground arith)

found_session-some :
    (a : Answers) (p : Profile) (st : Store) (sid : ℕ)
    → found_session a p st ≡ some sid
    → 1 ≤ open_count p.profile_id st.sessions
unfolding found_session
found_session-some a p st sid e =
    find_session-some p.profile_id st.sessions {sid = sid} (ground arith)

save_none-Saved :
    (a : Answers) (cfg : ℕ) (c : Client) (p : Profile) (st : Store)
    → found_session a p st ≡ none
    → Saved a p.profile_id st.sessions (save_client none a cfg c p st).sessions
unfolding save_client
save_none-Saved a cfg c p st e = record {
  others = λ j h. ground (arith, open_count-insert_session a cfg c p st j);
  grows = omega (arith, open_count-insert_session a cfg c p st p.profile_id);
  there = λ h. ground (arith, open_count-insert_session a cfg c p st p.profile_id);
  one = λ h le.
      ground
        (arith, open_count-insert_session a cfg c p st p.profile_id, found_session-none a p st e h);
}

save_some-Saved :
    (sid : ℕ) (a : Answers) (cfg : ℕ) (c : Client) (p : Profile) (st : Store)
    → found_session a p st ≡ some sid
    → Saved a p.profile_id st.sessions (save_client (some sid) a cfg c p st).sessions
save_some-Saved sid a cfg c p st e = record {
  others = λ j h. open_count-save_some sid a cfg c p st j;
  grows = omega (arith, open_count-save_some sid a cfg c p st p.profile_id);
  there = λ h.
      omega (
        arith,
        open_count-save_some sid a cfg c p st p.profile_id,
        found_session-some a p st sid e,
      );
  one = λ h le. omega (arith, open_count-save_some sid a cfg c p st p.profile_id);
}

pub save_client-Saved :
    (a : Answers) (cfg : ℕ) (c : Client) (p : Profile) (st : Store)
    → Saved a p.profile_id st.sessions (save_client (found_session a p st) a cfg c p st).sessions
save_client-Saved a cfg c p st = elim (Option-cases (found_session a p st)) [
  | inl e ↦ rw e (save_none-Saved a cfg c p st e)
  | inr (sid, e) ↦ rw e (save_some-Saved sid a cfg c p st e)
]

open_count-disconnect_others :
    (cfg : ℕ) (online : List ℕ) (j : ℕ) (ss : List Session)
    → (open_count j (disconnect_others cfg online ss) ≤ open_count j ss)
      × (contains j online ≡ true
          → open_count j (disconnect_others cfg online ss) ≡ open_count j ss)
unfolding disconnect_others
open_count-disconnect_others cfg online j [] = (omega arith, λ h. refl)
open_count-disconnect_others cfg online j (s ∷ ss) =
    ground (arith, open_count-disconnect_others cfg online j ss)

open_in-disconnect_others :
    (cfg : ℕ) (online : List ℕ) (j : ℕ) (ss : List Session)
    → contains j online ≡ false
    → open_in cfg j (disconnect_others cfg online ss) ≡ 0
unfolding disconnect_others
open_in-disconnect_others cfg online j [] h = refl
open_in-disconnect_others cfg online j (s ∷ ss) h =
    ground (arith, open_in-disconnect_others cfg online j ss, contains-eq s.profile_id j online)
  where
    contains-eq : (i k : ℕ) (xs : List ℕ) → (i == k) ≡ true → contains i xs ≡ contains k xs
    contains-eq i k xs e = let same : i ≡ k = (==_iff i k).0 e in rw same

open_count-disconnect_all :
    (cfg j : ℕ) (ss : List Session) → open_count j (disconnect_all cfg ss) ≤ open_count j ss
unfolding disconnect_all
open_count-disconnect_all cfg j [] = omega arith
open_count-disconnect_all cfg j (s ∷ ss) = ground (arith, open_count-disconnect_all cfg j ss)

open_in-disconnect_all : (cfg j : ℕ) (ss : List Session) → open_in cfg j (disconnect_all cfg ss) ≡ 0
unfolding disconnect_all
open_in-disconnect_all cfg j [] = refl
open_in-disconnect_all cfg j (s ∷ ss) = ground (arith, open_in-disconnect_all cfg j ss)

-- What the last statement does, for both of its forms.
pub record Marked (cfg j : ℕ) (online : List ℕ) (before after : Store) : Type 0 where
  pub falls : open_count j after.sessions ≤ open_count j before.sessions
  pub keeps : contains j online ≡ true → open_count j after.sessions ≡ open_count j before.sessions

disconnect-Marked :
    (cfg j : ℕ) (online : List ℕ) (st : Store) → Marked cfg j online st (disconnect cfg online st)
unfolding disconnect
disconnect-Marked cfg j [] st = record {
  falls = open_count-disconnect_all cfg j st.sessions;
  keeps = λ h. cc;
}
disconnect-Marked cfg j (x ∷ xs) st =
    let l = open_count-disconnect_others cfg (x ∷ xs) j st.sessions in
    record { falls = ground (arith, l.0); keeps = λ h. ground (arith, l.1 h) }

pub mark_disconnected-Marked :
    (accepted : Bool) (cfg j : ℕ) (online : List ℕ) (st : Store)
    → Marked cfg j online st (mark_disconnected accepted cfg online st)
unfolding mark_disconnected
mark_disconnected-Marked accepted cfg j online st =
    elim (Bool-cases (accepted && fits_id_list online)) [
      | inl run ↦ rw (run, mark_disconnected) (disconnect-Marked cfg j online st)
      | inr kept ↦ rw (kept, mark_disconnected) (record { falls = omega arith; keeps = λ h. refl })
    ]

disconnect-open_in :
    (cfg j : ℕ) (online : List ℕ) (st : Store)
    → contains j online ≡ false
    → open_in cfg j (disconnect cfg online st).sessions ≡ 0
unfolding disconnect
disconnect-open_in cfg j [] st h = open_in-disconnect_all cfg j st.sessions
disconnect-open_in cfg j (x ∷ xs) st h =
    ground (arith, open_in-disconnect_others cfg (x ∷ xs) j st.sessions h)

pub mark_disconnected-open_in :
    (cfg j : ℕ) (online : List ℕ) (st : Store)
    → fits_id_list online ≡ true
    → contains j online ≡ false
    → open_in cfg j (mark_disconnected true cfg online st).sessions ≡ 0
unfolding mark_disconnected
mark_disconnected-open_in cfg j online st fits h =
    rw (fits, mark_disconnected) (disconnect-open_in cfg j online st h)
