-- ===== src/Authorities/Chosen.antt =====
-- What holds of every row of vpn_ca, under the SQL statements and for the row that a query gives.
use ovpn_manager.Prelude.{
  ℕ, ◌≡◌, true, List, [], ◌∷◌, Option, none, some, ◌==◌, ltb, Bool-cases, subst, inl, inr, Bytes,
  eqb_refl, All, arith,
}
use ovpn_manager.Prelude.Int.{ℤ, pos, negsuc}
use ovpn_manager.Schema.{Authority}
use ovpn_manager.Authorities.Rows.{
  find_authority, newest, latest, chosen, delete_authority, delete_by, put,
}
use ovpn_manager.Authorities.Anchors.{is_vouched}

module _ (P : Authority → Type 0) where
  All-find_authority :
      (id : ℕ) (rs : List Authority) (row : Authority)
      → All P rs
      → find_authority id rs ≡ some row
      → P row
  unfolding find_authority
  All-find_authority id [] row a e = cc
  All-find_authority id (r ∷ rs) row a e = elim (Bool-cases (r.id == id)) [
    | inl same ↦ let e' : r ≡ row = ground arith in subst P e' a.0
    | inr other ↦ All-find_authority id rs row a.1 (ground arith)
  ]

  All-newest : (r : Authority) (rs : List Authority) → P r → All P rs → P (newest r rs)
  unfolding newest
  All-newest r [] p a = p
  All-newest r (s ∷ rs) p a = elim (Bool-cases (ltb r.created_at s.created_at)) [
    | inl later ↦ rw later (All-newest s rs a.0 a.1)
    | inr other ↦ rw other (All-newest r rs p a.1)
  ]

  pub All-chosen :
      (id : Option ℤ) (rs : List Authority) (row : Authority)
      → All P rs
      → chosen id rs ≡ some row
      → P row
  unfolding latest
  All-chosen none [] row a e = cc
  All-chosen none (r ∷ rs) row a e =
      let e' : newest r rs ≡ row = ground arith in subst P e' (All-newest r rs a.0 a.1)
  All-chosen (some (pos id)) rs row a e = All-find_authority id rs row a e
  All-chosen (some (negsuc id)) rs row a e = cc

  pub All-put : (r : Authority) (rs : List Authority) → P r → All P rs → All P (put r rs)
  unfolding put
  All-put r [] p a = (p, tt)
  All-put r (s ∷ rs) p a = elim (Bool-cases (s.id == r.id)) [
    | inl same ↦ rw same (p, a.1)
    | inr other ↦ rw other (a.0, All-put r rs p a.1)
  ]

  pub All-delete_by : (id : ℤ) (rs : List Authority) → All P rs → All P (delete_by id rs)
  unfolding delete_authority
  All-delete_by (negsuc id) rs a = a
  All-delete_by (pos id) [] a = tt
  All-delete_by (pos id) (r ∷ rs) a = elim (Bool-cases (r.id == id)) [
    | inl same ↦ rw same (All-delete_by (pos id) rs a.1)
    | inr other ↦ rw other (a.0, All-delete_by (pos id) rs a.1)
  ]

-- The fingerprint of each row is that of some row.
abbrev pub IsListed : List Authority → Authority → Type 0
IsListed rs r = (fp : Bytes) → r.ca_fingerprint ≡ some fp → is_vouched fp rs ≡ true

All-IsListed-in :
    (rs all : List Authority)
    → ((fp : Bytes) → is_vouched fp rs ≡ true → is_vouched fp all ≡ true)
    → All (IsListed all) rs
unfolding is_vouched
All-IsListed-in [] all sub = tt
All-IsListed-in (s ∷ rs) all sub = (
  λ fp e. sub fp (rw e (ground (arith, eqb_refl fp))),
  All-IsListed-in rs all λ fp v. sub fp (ground arith),
)

pub All-IsListed : (rs : List Authority) → All (IsListed rs) rs
All-IsListed rs = All-IsListed-in rs rs λ fp v. v
