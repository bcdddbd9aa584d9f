-- ===== src/Schema.antt =====
-- The tables of the database (schema.sql), with the columns that the handlers of master/ read or
-- write. A column that may be NULL is an option.
use ovpn_manager.Prelude.{ℕ, Bool, List, [], Option, none, some, Bytes}

-- A row of vpn_ca; `none` is NULL.
pub record Authority : Type 0 where
  pub id : ℕ
  pub common_name : Bytes
  pub ca_cert : Bytes
  pub ca_key : Bytes
  pub ca_fingerprint : Option Bytes
  pub created_at : ℕ

-- A row of vpn_config.
pub record VpnConfig : Type 0 where
  pub id : ℕ
  pub mode : Bytes
  pub proto : Bytes
  pub port : ℕ
  pub remote : Bytes
  pub ca_cert : Option Bytes
  pub ca_fingerprint : Option Bytes
  pub server_cert : Option Bytes
  pub server_key : Option Bytes
  pub status : Bytes

-- A row of vpn_users.
pub record User : Type 0 where
  pub id : ℕ
  pub username : Bytes
  pub email : Bytes
  pub client_name : Bytes
  pub disabled : Bool

-- A row of vpn_client_profiles.
pub record ClientProfile : Type 0 where
  pub id : ℕ
  pub user_id : ℕ
  pub config_id : ℕ
  pub assigned_ip : Option Bytes
  pub use_static_ip : Bool
  pub client_cert : Bytes
  pub client_key : Bytes
  pub revoked : Bool

-- A row of vpn_revoked_certs.
pub record Revoked : Type 0 where
  pub profile_id : ℕ
  pub serial : Bytes
  pub reason : Bytes

-- The tables, with the next values of the serial columns of vpn_ca, vpn_users and
-- vpn_client_profiles.
pub record Tables : Type 0 where
  pub authorities : List Authority
  pub configs : List VpnConfig
  pub users : List User
  pub profiles : List ClientProfile
  pub revocations : List Revoked
  pub next_id : ℕ
  pub next_user : ℕ
  pub next_profile : ℕ

-- PQgetvalue gives an empty text for NULL.
abbrev pub text : Option Bytes → Bytes
text none = []
text (some s) = s
