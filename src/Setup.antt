-- ===== src/Setup.antt =====
-- master/database.c: init_database with init_web_user and clear_config_password, and the random keys
-- of master/config.c. What the system and the database answer is an argument.
pub mod Keys
pub mod Clearing
pub mod WebUser
use ovpn_manager.Prelude.{
  ℕ, zero, suc, ◌-◌, ◌%◌, ◌+◌, Bool, true, false, ◌&&◌, ◌||◌, List, [], ◌∷◌, ◌++◌, Option, none,
  some, ◌==◌, if◌then◌else◌, Bytes, codes, is_empty, map, concat, take, length, get_or,
  contains_text, find_char,
}
use ovpn_manager.Prelude.Int.{ℤ, pos, negsuc}
use ovpn_manager.Prelude.Decimal.{decimal}
use ovpn_manager.Config.{Config}

abbrev pub charset : Bytes
charset = codes "abcdefghijklmnopqrstuvwxyzABCDEFGHIJKLMNOPQRSTUVWXYZ0123456789"

-- `charset[random_bytes[i] % (sizeof(charset) - 1)]`
unfoldable pub charset_at : ℕ → ℕ
charset_at b = get_or charset (b % 62) 0

-- The key in an array of `len` bytes that holds zeros; `none` is a failure of RAND_bytes. `time` is
-- the time in seconds.
unfoldable pub generate_random_key : Option Bytes → ℕ → ℕ → Bytes
unfolding charset_at
generate_random_key none time len = take (len - 1) (codes "fallback-key-" ++ decimal time)
generate_random_key (some random_bytes) time len =
    take (len - 1) (map charset_at (take 32 random_bytes))

-- `fgets` into 512 bytes, until the end: `cur` is what it has read of a line.
unfoldable pub fgets_from : Bytes → Bytes → List Bytes
fgets_from cur [] = if is_empty cur then [] else cur ∷ []
fgets_from cur (c ∷ s) =
    let line = cur ++ c ∷ [] in
    let next_line = fgets_from [] s in
    let same_line = fgets_from line s in
    if c == 10 || length line == 511 then line ∷ next_line else same_line

-- The text up to the first ':' and with it.
unfoldable pub up_to_colon : Bytes → Bytes
up_to_colon [] = []
up_to_colon (c ∷ s) = c ∷ (if c == b':' then [] else up_to_colon s)

-- "  # cleared, auth via web-db-auth\n"
abbrev pub comment : Bytes
comment = codes "  # cleared, auth via web-db-auth" ++ 10 ∷ []

-- One line of the loop. `strncpy` leaves the last of the 512 bytes for the NUL.
unfoldable pub clear_line : Bytes → Bytes
unfolding up_to_colon
clear_line l =
    if contains_text (codes "password") l
    then elim (find_char b':' l) [
      | none ↦ l
      | some r ↦ up_to_colon l ++ take (511 - length (up_to_colon l)) comment
    ]
    else l

-- The file that is written for the file that was read: the first 100 lines.
unfoldable pub cleared : Bytes → Bytes
unfolding fgets_from clear_line
cleared s = concat (map clear_line (take 100 (fgets_from [] s)))

-- The file in the end: `readable` and `writable` are the two calls of fopen.
unfoldable pub clear_config_password : Bool → Bool → Bytes → Bytes
unfolding cleared
clear_config_password readable writable s = if readable && writable then cleared s else s

-- The result of CREATE USER and the statements behind it.
pub data CreateUser : Type 0 where
  created already_exists refused : CreateUser

-- CREATE USER for a role that is there is not accepted.
unfoldable pub create_result : Bool → CreateUser → CreateUser
create_result true created = already_exists
create_result role u = u

-- `user`: the answer where the role is not there. `random_bytes`: what RAND_bytes gives. `auth_opened`: the file web-db-auth can be opened.
pub record WebAnswers : Type 0 where
  pub random_bytes : Option Bytes
  pub user : CreateUser
  pub auth_opened : Bool
  pub readable : Bool
  pub writable : Bool

-- What is set up: the tables, whether the database has the role vpn_web, the database user of the web interface with its password, the file
-- web-db-auth and the daemon's configuration file.
pub record Site : Type 0 where
  pub initialized : Bool
  pub role : Bool
  pub web_user : Option Bytes
  pub web_db_auth : Option Bytes
  pub core_yaml : Bytes

-- A number in decimal with its sign.
unfoldable pub signed_text : ℤ → Bytes
signed_text (pos n) = decimal n
signed_text (negsuc n) = b'-' ∷ decimal (suc n)

unfoldable pub auth_text : Config → Bytes → Bytes
unfolding signed_text
auth_text c web_password = concat (
    codes "host="
    ∷ c.db_host
    ∷ codes "\nport="
    ∷ signed_text c.db_port
    ∷ codes "\ndbname="
    ∷ c.db_name
    ∷ codes "\nuser=vpn_web\npassword="
    ∷ web_password
    ∷ codes "\n"
    ∷ [])

-- From the file web-db-auth on.
unfoldable pub write_auth : WebAnswers → Config → Bytes → Site → Site × Bool
unfolding auth_text clear_config_password
write_auth a c web_password s =
    if a.auth_opened
    then (
      record s {
        web_db_auth = some (auth_text c web_password);
        core_yaml = clear_config_password a.readable a.writable s.core_yaml;
      },
      true,
    )
    else (s, false)

unfoldable pub create_user : CreateUser → WebAnswers → Config → Bytes → Site → Option (Site × Bool)
unfolding write_auth
create_user created a c web_password s =
    some (write_auth a c web_password (record s { role = true; web_user = some web_password }))
create_user already_exists a c web_password s = none
create_user refused a c web_password s = some (s, false)

-- The result is true for 0; `none` is undefined: where the user exists already, the result of the
-- query is freed twice.
unfoldable pub init_web_user : WebAnswers → Config → Site → Option (Site × Bool)
unfolding create_user charset_at create_result
init_web_user a c s = elim a.random_bytes [
  | none ↦ some (s, true)
  | some random_bytes ↦
      create_user (create_result s.role a.user) a c (map charset_at (take 32 random_bytes)) s
]

-- The answers to init_database: the script can be opened, there is memory for it, and the results of
-- BEGIN, of the script, where the role vpn_web is there, and of COMMIT. The script revokes rights from
-- that role and grants it others, so PostgreSQL refuses it where the role is not there.
pub record SchemaAnswers : Type 0 where
  pub opened : Bool
  pub allocated : Bool
  pub begun : Bool
  pub executed : Bool
  pub committed : Bool
  pub web : WebAnswers

-- A transaction that is not committed leaves the tables as they were.
unfoldable pub init_database : SchemaAnswers → Config → Site → Option (Site × Bool)
unfolding init_web_user
init_database a c s =
    if a.opened && (a.allocated && (a.begun && ((a.executed && s.role) && a.committed)))
    then init_web_user a.web c (record s { initialized = true })
    else some (s, false)
