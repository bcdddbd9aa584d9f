-- ===== src/Config/Steps.antt =====
-- What the token machine does with an entry, with a key that opens a mapping, and with its end.
use ovpn_manager.Prelude.{
  ◌≡◌, refl, sym, List, ◌∷◌, Bytes, codes, eqb-take, arith, inl, inr, ◌⊎◌, true, false, subst,
}
use ovpn_manager.Prelude.Int.{ℤ, pos, negsuc, inc, eqb_ℤ}
use ovpn_manager.Config.{
  Config, Section, outside, database, log, openvpn, pki, Token, key, value, scalar,
  block_mapping_start, block_end, Parser, safe_strcpy, section_of, assign, assign_database,
  assign_log, assign_openvpn, assign_pki, assign_top, step, scalar_in, enter, mapping_start,
  mapping_end, scan,
}

-- No name that the machine compares with is as long as the arrays that hold the last keys.
pub assign-take_outside :
    (c : Config) (old k v : Bytes)
    → assign outside c (safe_strcpy old k 64) v ≡ assign outside c k v
unfolding assign assign_top safe_strcpy
assign-take_outside c old k v = ground (
  arith,
  eqb-take 63 k (codes "master_key_file"),
  eqb-take 63 k (codes "encryption_key"),
  eqb-take 63 k (codes "listen_port"),
  eqb-take 63 k (codes "listen_host"),
)

pub assign-take :
    (s : Section) (c : Config) (old k v : Bytes)
    → (s ≡ outside) ⊎ (assign s c (safe_strcpy old k 256) v ≡ assign s c k v)
unfolding assign assign_database assign_log assign_openvpn assign_pki safe_strcpy
assign-take outside c old k v = inl refl
assign-take database c old k v = inr (
    ground (
      arith,
      eqb-take 255 k (codes "host"),
      eqb-take 255 k (codes "port"),
      eqb-take 255 k (codes "name"),
      eqb-take 255 k (codes "user"),
      eqb-take 255 k (codes "password"),
    ))
assign-take log c old k v =
    inr (ground (arith, eqb-take 255 k (codes "level"), eqb-take 255 k (codes "file")))
assign-take openvpn c old k v = inr (
    ground (
      arith,
      eqb-take 255 k (codes "binary"),
      eqb-take 255 k (codes "config_dir"),
      eqb-take 255 k (codes "management_socket"),
    ))
assign-take pki c old k v = inr (ground (arith, eqb-take 255 k (codes "ca_key")))

pub section_of-take : (old k : Bytes) → section_of (safe_strcpy old k 64) ≡ section_of k
unfolding section_of safe_strcpy
section_of-take old k = ground (
  arith,
  eqb-take 63 k (codes "database"),
  eqb-take 63 k (codes "log"),
  eqb-take 63 k (codes "openvpn"),
  eqb-take 63 k (codes "pki"),
)

-- What an entry leaves behind, in a section or outside every one.
pub record Assigned (s : Section) (p : Parser) (k v : Bytes) (q : Parser) : Type 0 where
  pub stays : q.in_section ≡ s
  pub same_depth : q.depth ≡ p.depth
  pub same_target : q.target_depth ≡ p.target_depth
  pub config_is : q.config ≡ assign s p.config k v

unfoldable pub after_scalar : Section → Parser → Bytes → Bytes → Parser
after_scalar outside p k v = record p {
  expect_key = false;
  current_section = safe_strcpy p.current_section k 64;
  config = assign outside p.config (safe_strcpy p.current_section k 64) v;
}
after_scalar s p k v = record p {
  expect_key = false;
  current_key = safe_strcpy p.current_key k 256;
  config = assign s p.config (safe_strcpy p.current_key k 256) v;
}

pub after_scalar-Assigned :
    (s : Section) (p : Parser) (k v : Bytes)
    → p.in_section ≡ s
    → Assigned s p k v (after_scalar s p k v)
unfolding after_scalar
after_scalar-Assigned outside p k v e =
    ground (arith, assign-take_outside p.config p.current_section k v)
after_scalar-Assigned database p k v e =
    ground (arith, assign-take database p.config p.current_key k v)
after_scalar-Assigned log p k v e = ground (arith, assign-take log p.config p.current_key k v)
after_scalar-Assigned openvpn p k v e =
    ground (arith, assign-take openvpn p.config p.current_key k v)
after_scalar-Assigned pki p k v e = ground (arith, assign-take pki p.config p.current_key k v)

pub scan_pair :
    (s : Section) (p : Parser) (k v : Bytes) (rest : List Token)
    → p.in_section ≡ s
    → scan p (key ∷ scalar k ∷ value ∷ scalar v ∷ rest) ≡ scan (after_scalar s p k v) rest
unfolding scan step scalar_in after_scalar
scan_pair outside p k v rest e = ground arith
scan_pair database p k v rest e = ground arith
scan_pair log p k v rest e = ground arith
scan_pair openvpn p k v rest e = ground arith
scan_pair pki p k v rest e = ground arith

-- The mapping that opened a section closes it, and any other leaves the machine outside.
pub record Closed (p q : Parser) : Type 0 where
  pub is_out : q.in_section ≡ outside
  pub kept : q.config ≡ p.config

eqb_ℤ_refl : (a : ℤ) → eqb_ℤ a a ≡ true
eqb_ℤ_refl (pos n) = ground arith
eqb_ℤ_refl (negsuc n) = ground arith

mapping_end-Closed :
    (s : Section) (p : Parser)
    → p.in_section ≡ s
    → (s ≡ outside) ⊎ (p.depth ≡ p.target_depth)
    → Closed p (mapping_end s p)
unfolding mapping_end
mapping_end-Closed outside p e d = ground arith
mapping_end-Closed _ p e d = ground (arith, eqb_ℤ_refl p.depth)

pub step_end-Closed :
    (s : Section) (p : Parser)
    → p.in_section ≡ s
    → (s ≡ outside) ⊎ (p.depth ≡ p.target_depth)
    → Closed p (step p block_end)
unfolding step
step_end-Closed s p e d =
    subst (λ x. Closed p (mapping_end x p)) (sym e) (mapping_end-Closed s p e d)

-- A mapping under a key opens the section that the key names.
pub record Opened (t : Section) (p q : Parser) : Type 0 where
  pub is_in : q.in_section ≡ t
  pub at_target : (t ≡ outside) ⊎ (q.depth ≡ q.target_depth)
  pub same : q.config ≡ p.config

abbrev pub at_mapping : Parser → Bytes → Parser
at_mapping p k = record p {
  expect_key = false;
  current_section = safe_strcpy p.current_section k 64;
  depth = inc p.depth;
}

enter-Opened : (t : Section) (p : Parser) → p.in_section ≡ outside → Opened t p (enter t p)
unfolding enter
enter-Opened outside p e = ground arith
enter-Opened _ p e = ground arith

pub enter_key-Opened :
    (p : Parser) (k : Bytes)
    → p.in_section ≡ outside
    → Opened
        (section_of k)
        p
        (enter (section_of (safe_strcpy p.current_section k 64)) (at_mapping p k))
enter_key-Opened p k e = rw (section_of-take p.current_section k) (
    let o = enter-Opened (section_of k) (at_mapping p k) e in
    record { is_in = o.is_in; at_target = o.at_target; same = o.same })

pub scan_key :
    (p : Parser) (k : Bytes) (rest : List Token)
    → p.in_section ≡ outside
    → scan p (key ∷ scalar k ∷ value ∷ block_mapping_start ∷ rest)
      ≡ scan (enter (section_of (safe_strcpy p.current_section k 64)) (at_mapping p k)) rest
unfolding scan step scalar_in mapping_start
scan_key p k rest e = ground arith

pub scan_end :
    (p : Parser) (rest : List Token) → scan p (block_end ∷ rest) ≡ scan (step p block_end) rest
unfolding scan
scan_end p rest = refl
