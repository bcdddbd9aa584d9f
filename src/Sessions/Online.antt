-- ===== src/Sessions/Online.antt =====
-- `update_sessions` as a whole: the open sessions after a report are those of the clients in it.
use ovpn_manager.Prelude.{
  ℕ, zero, suc, ◌≤◌, ◌≡◌, refl, sym, ap, ◌∙◌, true, false, List, [], ◌∷◌, ◌++◌, Option, none, some,
  ◌==◌, ltb, if◌then◌else◌, ◌⊎◌, inl, inr, arith, contains, contains-append, length, take, Bytes,
  append_assoc, append-nil, Option-cases, Bool-cases, subst, ==_iff,
}
use ovpn_manager.Sessions.Report.{Client, report}
use ovpn_manager.Sessions.Table.{
  Profile, Session, Store, Answers, Sweep, save_client, found_session, add_online, max_online,
  lookup_profile, sweep_profile, sweep, fits_id_list, mark_disconnected, update_sessions,
}
use ovpn_manager.Sessions.Counts.{
  open_count, open_in, save_client-Saved, mark_disconnected-Marked, mark_disconnected-open_in,
}

-- The profiles of the known clients of a report, in order.
unfoldable pub known_profiles : Answers → ℕ → List Profile → List Client → List ℕ
known_profiles a cfg ps [] = []
known_profiles a cfg ps (c ∷ cs) =
    let rest = known_profiles a cfg ps cs in
    elim (lookup_profile a cfg ps c) [ none ↦ rest | some p ↦ p.profile_id ∷ rest ]

-- `online_profiles`: the first 256 of them.
abbrev pub recorded : Answers → ℕ → List Profile → Bytes → List ℕ
recorded a cfg ps buf = take max_online (known_profiles a cfg ps (report buf))

take-nil : (n : ℕ) → take {A = ℕ} n [] ≡ []
take-nil zero = refl
take-nil (suc n) = refl

add-take :
    (n pid : ℕ) (xs : List ℕ)
    → (if ltb (length (take n xs)) n then take n xs ++ pid ∷ [] else take n xs)
      ≡ take n (xs ++ pid ∷ [])
add-take zero pid xs = ground arith
add-take (suc n) pid [] = ground (arith, take-nil n)
add-take (suc n) pid (x ∷ xs) = ground (arith, add-take n pid xs)

sweep-online :
    (a : Answers) (cfg : ℕ) (ps : List Profile) (cs : List Client) (w : Sweep) (seen : List ℕ)
    → w.online_profiles ≡ take max_online seen
    → (sweep a cfg ps cs w).online_profiles ≡ take max_online (seen ++ known_profiles a cfg ps cs)
unfolding sweep known_profiles
sweep-online a cfg ps [] w seen e = rw append-nil e
sweep-online a cfg ps (c ∷ cs) w seen e = elim (Option-cases (lookup_profile a cfg ps c)) [
  | inl unknown ↦ rw (unknown, known_profiles, sweep) (sweep-online a cfg ps cs w seen e)
  | inr (p, known) ↦
      rw (known, known_profiles, sweep)
        (sweep-online a cfg ps cs (sweep_profile (some p) a cfg c w) (seen ++ p.profile_id ∷ []) (
            ap (add_online p.profile_id) e
            ∙ unfold add_online in add-take max_online p.profile_id seen)
          ∙ ap (take max_online) (append_assoc seen (p.profile_id ∷ []) _))
]

-- At most one session of each profile is open.
abbrev pub IsSingle : List Session → Type 0
IsSingle ss = (j : ℕ) → open_count j ss ≤ 1

sweep_profile-IsSingle :
    (o : Option Profile) (a : Answers) (cfg : ℕ) (c : Client) (w : Sweep)
    → ((j : ℕ) → a.session_found j ≡ true)
    → IsSingle w.store.sessions
    → IsSingle (sweep_profile o a cfg c w).store.sessions
unfolding sweep_profile
sweep_profile-IsSingle none a cfg c w found s j = s j
sweep_profile-IsSingle (some p) a cfg c w found s j =
    let saved = save_client-Saved a cfg c p w.store in
    elim (Bool-cases (p.profile_id == j)) [
      | inl same ↦
          let e : p.profile_id ≡ j = (==_iff p.profile_id j).0 same in
          subst
            (λ i.
              open_count i (save_client (found_session a p w.store) a cfg c p w.store).sessions ≤ 1)
            e (saved.one (found p.profile_id) (s p.profile_id))
      | inr other ↦ rw (saved.others j other) (s j)
    ]

sweep-IsSingle :
    (a : Answers) (cfg : ℕ) (ps : List Profile) (cs : List Client) (w : Sweep)
    → ((j : ℕ) → a.session_found j ≡ true)
    → IsSingle w.store.sessions
    → IsSingle (sweep a cfg ps cs w).store.sessions
unfolding sweep
sweep-IsSingle a cfg ps [] w found s = s
sweep-IsSingle a cfg ps (c ∷ cs) w found s =
    sweep-IsSingle a cfg ps cs _ found
      (sweep_profile-IsSingle (lookup_profile a cfg ps c) a cfg c w found s)

-- The profiles recorded so far have an open session.
abbrev IsServed : Sweep → Type 0
IsServed w = (j : ℕ) → contains j w.online_profiles ≡ true → 1 ≤ open_count j w.store.sessions

contains-add_online :
    (j pid : ℕ) (xs : List ℕ)
    → contains j (add_online pid xs) ≡ true
    → (pid ≡ j) ⊎ (contains j xs ≡ true)
unfolding add_online
contains-add_online j pid xs h = ground (arith, contains-append j xs (pid ∷ []))

sweep_profile-IsServed :
    (o : Option Profile) (a : Answers) (cfg : ℕ) (c : Client) (w : Sweep)
    → ((j : ℕ) → a.inserted j ≡ true)
    → IsServed w
    → IsServed (sweep_profile o a cfg c w)
unfolding sweep_profile
sweep_profile-IsServed none a cfg c w inserted s j h = s j h
sweep_profile-IsServed (some p) a cfg c w inserted s j h =
    let saved = save_client-Saved a cfg c p w.store in
    elim (Bool-cases (p.profile_id == j)) [
      | inl same ↦
          let e : p.profile_id ≡ j = (==_iff p.profile_id j).0 same in
          subst
            (λ i.
              1 ≤ open_count i (save_client (found_session a p w.store) a cfg c p w.store).sessions)
            e (saved.there (inserted p.profile_id))
      | inr other ↦
          rw (saved.others j other)
            (s j (ground (arith, contains-add_online j p.profile_id w.online_profiles h)))
    ]

sweep-IsServed :
    (a : Answers) (cfg : ℕ) (ps : List Profile) (cs : List Client) (w : Sweep)
    → ((j : ℕ) → a.inserted j ≡ true)
    → IsServed w
    → IsServed (sweep a cfg ps cs w)
unfolding sweep
sweep-IsServed a cfg ps [] w inserted s = s
sweep-IsServed a cfg ps (c ∷ cs) w inserted s =
    sweep-IsServed a cfg ps cs _ inserted
      (sweep_profile-IsServed (lookup_profile a cfg ps c) a cfg c w inserted s)

-- Where the queries for sessions are answered, a report never leaves a profile with two open
-- sessions, whichever of the other statements fail.
pub update_sessions-IsSingle :
    (a : Answers) (cfg : ℕ) (ps : List Profile) (buf : Bytes) (st : Store)
    → ((j : ℕ) → a.session_found j ≡ true)
    → IsSingle st.sessions
    → IsSingle (update_sessions a cfg ps buf st).sessions
unfolding update_sessions
update_sessions-IsSingle a cfg ps buf st found s j =
    let w = sweep a cfg ps (report buf) (record { store = st; online_profiles = [] }) in
    let swept =
      sweep-IsSingle a cfg ps (report buf) (record { store = st; online_profiles = [] }) found s in
    let m = mark_disconnected-Marked a.marked cfg j w.online_profiles w.store in
    omega (arith, swept j, m.falls)

-- Where insertions are accepted and the list of the ids fits its array, each of the first 256 known clients of the report has an open
-- session afterwards.
pub update_sessions-recorded :
    (a : Answers) (cfg : ℕ) (ps : List Profile) (buf : Bytes) (st : Store) (j : ℕ)
    → ((i : ℕ) → a.inserted i ≡ true)
    → fits_id_list (recorded a cfg ps buf) ≡ true
    → contains j (recorded a cfg ps buf) ≡ true
    → 1 ≤ open_count j (update_sessions a cfg ps buf st).sessions
unfolding update_sessions
update_sessions-recorded a cfg ps buf st j inserted _ h =
    let w0 : Sweep = record { store = st; online_profiles = [] } in
    let w = sweep a cfg ps (report buf) w0 in
    let served = sweep-IsServed a cfg ps (report buf) w0 inserted (λ i e. cc) in
    let online = sweep-online a cfg ps (report buf) w0 [] refl in
    let here : contains j w.online_profiles ≡ true = rw online h in
    let m = mark_disconnected-Marked a.marked cfg j w.online_profiles w.store in
    omega (arith, served j here, m.keeps here)

-- Where the last statement is accepted and the list of the ids fits its array, a profile that is not among the first 256 known clients of
-- the report has no open session in the configuration afterwards.
pub update_sessions-unrecorded :
    (a : Answers) (cfg : ℕ) (ps : List Profile) (buf : Bytes) (st : Store) (j : ℕ)
    → a.marked ≡ true
    → fits_id_list (recorded a cfg ps buf) ≡ true
    → contains j (recorded a cfg ps buf) ≡ false
    → open_in cfg j (update_sessions a cfg ps buf st).sessions ≡ 0
unfolding update_sessions
update_sessions-unrecorded a cfg ps buf st j marked fits h =
    let w0 : Sweep = record { store = st; online_profiles = [] } in
    let w = sweep a cfg ps (report buf) w0 in
    let online = sweep-online a cfg ps (report buf) w0 [] refl in
    subst (λ b. open_in cfg j (mark_disconnected b cfg w.online_profiles w.store).sessions ≡ 0)
      (sym marked)
      (mark_disconnected-open_in cfg j w.online_profiles w.store (rw online fits) (rw online h))
