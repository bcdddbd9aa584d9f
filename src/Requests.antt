-- ===== src/Requests.antt =====
-- The parameters of a request, the responses, and chains of steps that may fail, as the handlers of
-- master/ca_handler.c, client_handler.c and socket_server.c use them.
pub mod Chains
use ovpn_manager.Schema.{Tables}
use ovpn_manager.Prelude.{ℕ, Bool, true, false, Option, none, some, Bytes}
use ovpn_manager.Prelude.Int.{ℤ}

-- A member of the request's `params`; `valueint` of a number.
pub data Json : Type 0 where
  number : ℤ → Json
  string : Bytes → Json
  other : Json

abbrev pub Params : Type 0
Params = Bytes → Option Json

abbrev pub string_of : Option Json → Option Bytes
string_of (some (string s)) = some s
string_of _ = none

abbrev pub number_of : Option Json → Option ℤ
number_of (some (number n)) = some n
number_of _ = none

abbrev pub number_or : ℤ → Option Json → ℤ
number_or d (some (number n)) = n
number_or d _ = d

-- The messages of `create_error_response`.
pub data Message : Type 0 where
  missing_parameters no_key no_certificate not_signed no_digest not_encrypted not_stored : Message
  no_authority not_parsed not_decrypted no_fingerprint in_use not_deleted : Message
  no_client not_revoked no_config no_ca_cert no_ca_key : Message
  password_disabled no_action unknown_action not_started not_stopped not_kicked : Message
  not_updated : Message

pub data Reply : Type 0 where
  error : Message → Reply
  ok : Reply
  ok_fingerprint : Bytes → Reply
  ok_data : Bytes → Reply
  ok_profile : ℕ → Bytes → Reply

pub data Result {ℓ} (A : Type ℓ) : Type ℓ where
  done : A → Result A
  failed : Message → Result A

infixl 5 ◌>>=◌ ◌>>◌
unfoldable pub ◌>>=◌ {ℓ κ} : {A : Type ℓ} {B : Type κ} → Result A → (A → Result B) → Result B
done a >>= f = f a
failed m >>= f = failed m

unfoldable pub ◌>>◌ {ℓ} : {B : Type ℓ} → Result (Unit {0}) → Result B → Result B
unfolding ◌>>=◌
m >> k = m >>= λ _. k

unfoldable pub or_fail {ℓ} : {A : Type ℓ} → Message → Option A → Result A
or_fail m none = failed m
or_fail m (some a) = done a

unfoldable pub require : Message → Bool → Result (Unit {0})
require m true = done tt
require m false = failed m

-- The row that a query gives, if the database answers it.
abbrev pub answered {ℓ} : {A : Type ℓ} → Bool → Option A → Option A
answered true row = row
answered false row = none

-- An error response leaves the tables as they were.
unfoldable pub respond : Tables → Result (Tables × Reply) → Tables × Reply
respond db (failed m) = (db, error m)
respond db (done r) = r
