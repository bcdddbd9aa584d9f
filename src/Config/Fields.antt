-- ===== src/Config/Fields.antt =====
-- The configuration that a document asks for, field by field, and what one entry changes in it.
use ovpn_manager.Prelude.{
  ℕ, ◌≡◌, refl, ap, ◌∙◌, Bool, true, false, ◌&&◌, List, [], ◌∷◌, Option, none, some, if◌then◌else◌,
  Bytes, codes, eqb, eqb_iff, take, arith, Bool-cases, inl, inr,
}
use ovpn_manager.Prelude.Int.{atoi}
use ovpn_manager.Config.{
  Config, Section, database, log, openvpn, pki, safe_strcpy, section_of, level_of, assign,
  assign_database, assign_log, assign_openvpn, assign_pki, assign_top,
}

-- The sections that the daemon reads.
pub data Part : Type 0 where
  in_database in_log in_openvpn in_pki : Part

abbrev pub name : Part → Bytes
name in_database = codes "database"
name in_log = codes "log"
name in_openvpn = codes "openvpn"
name in_pki = codes "pki"

abbrev pub section : Part → Section
section in_database = database
section in_log = log
section in_openvpn = openvpn
section in_pki = pki

abbrev same_part : Part → Part → Bool
same_part in_database in_database = true
same_part in_log in_log = true
same_part in_openvpn in_openvpn = true
same_part in_pki in_pki = true
same_part p q = false

abbrev same_place : Option Part → Option Part → Bool
same_place none none = true
same_place (some p) (some q) = same_part p q
same_place p q = false

-- What the last entry for a key in a place gives, and `old` if there is none.
abbrev pub setting :
    {A : Type 0} → (Bytes → A) → Option Part → Bytes → A → List (Option Part × Bytes × Bytes) → A
setting f place key old [] = old
setting f place key old ((p, k, v) ∷ es) =
    setting f place key (if same_place p place && eqb k key then f v else old) es

abbrev pub level_number : Bytes → ℕ
level_number v =
    if eqb v (codes "debug")
    then 0
    else if eqb v (codes "warn")
    then 2
    else if eqb v (codes "error")
    then 3
    else 1

-- The configuration with the last setting of each field, where the field has one. A text is cut to
-- the size of its array.
abbrev pub asked : Config → List (Option Part × Bytes × Bytes) → Config
asked c es = record {
  db_host = setting (take 255) (some in_database) (codes "host") c.db_host es;
  db_port = setting atoi (some in_database) (codes "port") c.db_port es;
  db_name = setting (take 255) (some in_database) (codes "name") c.db_name es;
  db_user = setting (take 255) (some in_database) (codes "user") c.db_user es;
  db_password = setting (take 255) (some in_database) (codes "password") c.db_password es;
  master_key_file = setting (take 255) none (codes "master_key_file") c.master_key_file es;
  encryption_key = setting (take 63) none (codes "encryption_key") c.encryption_key es;
  log = record {
    level = setting (take 15) (some in_log) (codes "level") c.log.level es;
    file = setting (take 255) (some in_log) (codes "file") c.log.file es;
    level_value = setting level_number (some in_log) (codes "level") c.log.level_value es;
  };
  openvpn = record {
    binary = setting (take 255) (some in_openvpn) (codes "binary") c.openvpn.binary es;
    config_dir = setting (take 255) (some in_openvpn) (codes "config_dir") c.openvpn.config_dir es;
    management_socket =
        setting (take 255) (some in_openvpn) (codes "management_socket") c.openvpn.management_socket
          es;
  };
  pki_ca_key = setting (take 255) (some in_pki) (codes "ca_key") c.pki_ca_key es;
  listen_port = setting atoi none (codes "listen_port") c.listen_port es;
  listen_host = setting (take 63) none (codes "listen_host") c.listen_host es;
}

abbrev pub set : Config → Option Part → Bytes → Bytes → Config
set c p k v = asked c ((p, k, v) ∷ [])

key_apart : (k a b : Bytes) → eqb a b ≡ false → (eqb k a && eqb k b) ≡ false
key_apart k a b h = elim (Bool-cases (eqb k a)) [
  | inl is_a ↦ ap (λ x. eqb k a && eqb x b) ((eqb_iff k a).0 is_a) ∙ ground arith
  | inr other ↦ ground arith
]

pub section_of-name : (p : Part) → section_of (name p) ≡ section p
unfolding section_of eqb
section_of-name in_database = refl
section_of-name in_log = refl
section_of-name in_openvpn = refl
section_of-name in_pki = refl

set-assign_database :
    (c : Config) (k v : Bytes) → assign_database c k v ≡ set c (some in_database) k v
unfolding assign_database safe_strcpy eqb
set-assign_database c k v = ground (
  arith,
  key_apart k (codes "host") (codes "port") refl,
  key_apart k (codes "host") (codes "name") refl,
  key_apart k (codes "host") (codes "user") refl,
  key_apart k (codes "host") (codes "password") refl,
  key_apart k (codes "port") (codes "name") refl,
  key_apart k (codes "port") (codes "user") refl,
  key_apart k (codes "port") (codes "password") refl,
  key_apart k (codes "name") (codes "user") refl,
  key_apart k (codes "name") (codes "password") refl,
  key_apart k (codes "user") (codes "password") refl,
)

level_of-level_number : (v : Bytes) → level_of v ≡ level_number v
unfolding level_of eqb
level_of-level_number v = ground (
  arith,
  key_apart v (codes "info") (codes "warn") refl,
  key_apart v (codes "info") (codes "error") refl,
)

set-assign_log : (c : Config) (k v : Bytes) → assign_log c k v ≡ set c (some in_log) k v
unfolding assign_log safe_strcpy eqb
set-assign_log c k v =
    ground (arith, key_apart k (codes "level") (codes "file") refl, level_of-level_number v)

set-assign_openvpn : (c : Config) (k v : Bytes) → assign_openvpn c k v ≡ set c (some in_openvpn) k v
unfolding assign_openvpn safe_strcpy eqb
set-assign_openvpn c k v = ground (
  arith,
  key_apart k (codes "binary") (codes "config_dir") refl,
  key_apart k (codes "binary") (codes "management_socket") refl,
  key_apart k (codes "config_dir") (codes "management_socket") refl,
)

set-assign_pki : (c : Config) (k v : Bytes) → assign_pki c k v ≡ set c (some in_pki) k v
unfolding assign_pki safe_strcpy
set-assign_pki c k v = ground arith

pub set-assign_top : (c : Config) (k v : Bytes) → assign_top c k v ≡ set c none k v
unfolding assign_top safe_strcpy eqb
set-assign_top c k v = ground (
  arith,
  key_apart k (codes "master_key_file") (codes "encryption_key") refl,
  key_apart k (codes "master_key_file") (codes "listen_port") refl,
  key_apart k (codes "master_key_file") (codes "listen_host") refl,
  key_apart k (codes "encryption_key") (codes "listen_port") refl,
  key_apart k (codes "encryption_key") (codes "listen_host") refl,
  key_apart k (codes "listen_port") (codes "listen_host") refl,
)

pub set-assign :
    (p : Part) (c : Config) (k v : Bytes) → assign (section p) c k v ≡ set c (some p) k v
unfolding assign
set-assign in_database c k v = set-assign_database c k v
set-assign in_log c k v = set-assign_log c k v
set-assign in_openvpn c k v = set-assign_openvpn c k v
set-assign in_pki c k v = set-assign_pki c k v
