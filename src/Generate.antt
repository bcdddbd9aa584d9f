-- ===== src/Generate.antt =====
-- master/openvpn.c, generate_openvpn_config and what it calls: the files that it writes and the
-- commands that it runs. OpenSSL and inet_aton are parameters.
pub mod Bridge
pub mod Text
pub mod Shared
pub mod CertFiles
pub mod Arrays
use ovpn_manager.Prelude.{
  ℕ, Bool, true, false, not, ◌&&◌, List, [], ◌∷◌, ◌++◌, Option, none, some, ◌==◌, if◌then◌else◌,
  Bytes, codes, eqb, is_empty, concat,
}
use ovpn_manager.Prelude.Decimal.{decimal}
use ovpn_manager.Certs.{decrypt_private_key}
use ovpn_manager.Certs.X509.{Openssl}
use ovpn_manager.Schema.{VpnConfig, Tables, text}
use ovpn_manager.Requests.{answered}
use ovpn_manager.Authorities.Rows.{find_config}
use ovpn_manager.Generate.Bridge.{Tap, tap_config, tap_commands}
use ovpn_manager.Generate.Text.{
  Written, nothing, out_of_bounds, contents, write_cert_file, Tun, tun_config,
}

-- /etc/openvpn/dh.pem: a file that could not be filled stays there.
pub data DhFile : Type 0 where
  absent unfinished complete : DhFile

-- The files, with a configuration file for each id, and the commands run so far.
pub record Files : Type 0 where
  pub ca_crt : Option Bytes
  pub server_crt : Option Bytes
  pub server_key : Option Bytes
  pub dh : DhFile
  pub conf : ℕ → Option Bytes
  pub commands : List Bytes

-- What the system and the database answer: each file can be opened for writing; DH_generate_parameters
-- and PEM_write_DHparams succeed; PEM_write_bio_PrivateKey succeeds; the rows of the queries.
pub record Answers : Type 0 where
  pub selected : Bool
  pub tun_row : Option Tun
  pub tap_row : Option Tap
  pub ca_opened : Bool
  pub cert_opened : Bool
  pub key_opened : Bool
  pub key_printed : Bool
  pub dh_opened : Bool
  pub dh_made : Bool
  pub conf_opened : Bool
  pub command : Bytes → Bool

-- A file that write_cert_file leaves. Where it reads out of bounds nothing is known; it has opened
-- and truncated the file.
unfoldable pub written : Written → Option Bytes → Option Bytes
written nothing old = old
written out_of_bounds old = some []
written (contents s) old = some s

-- The file behind `if (access(..., F_OK) != 0)`, and whether the function goes on.
unfoldable pub prepare_dh : Answers → DhFile → DhFile × Bool
prepare_dh a absent =
    if a.dh_opened
    then (if a.dh_made then (complete, true) else (unfinished, false))
    else (absent, false)
prepare_dh a d = (d, true)

pub pid_path : ℕ → Bytes
pid_path id = concat (codes "/var/run/openvpn/vpn-" ∷ decimal id ∷ codes ".pid" ∷ [])

pub management_path : ℕ → Bytes
management_path id = concat (codes "/var/run/openvpn/management-" ∷ decimal id ∷ codes ".sock" ∷ [])

unfoldable pub set_conf : ℕ → Bytes → (ℕ → Option Bytes) → ℕ → Option Bytes
set_conf id s conf j = if j == id then some s else conf j

module _ (o : Openssl) (inet_aton : Bytes → Option ℕ) where
  open o use {pem, key_to_pem}

  -- `decrypted_server_key`: the text in the database where the key cannot be opened or printed.
  unfoldable pub server_key_text : Bool → Bytes → Bytes → Bytes
  server_key_text printed encryption_key server_key =
      if is_empty server_key
      then []
      else elim (decrypt_private_key pem encryption_key server_key none) [
        | none ↦ server_key
        | some pkey ↦ if printed then key_to_pem pkey else server_key
      ]

  unfoldable pub mode_config : Answers → ℕ → Bytes → Bytes
  mode_config a id mode =
      if eqb mode (codes "tun")
      then elim a.tun_row [ none ↦ [] | some t ↦ tun_config t ]
      else if eqb mode (codes "tap")
      then elim a.tap_row [ none ↦ [] | some t ↦ tap_config inet_aton id t ]
      else []

  unfoldable pub mode_commands : Answers → Bytes → List Bytes
  mode_commands a mode =
      if not (eqb mode (codes "tun")) && eqb mode (codes "tap")
      then elim a.tap_row [ none ↦ [] | some t ↦ tap_commands a.command t ]
      else []

  -- The lines in front of the mode's, and behind them.
  abbrev pub head_lines : VpnConfig → Bytes
  head_lines c = concat (
      codes "port "
      ∷ decimal c.port
      ∷ codes "\nproto "
      ∷ c.proto
      ∷ codes "\nca /etc/openvpn/ca.crt\ncert /etc/openvpn/server.crt\n"
      ∷ codes "key /etc/openvpn/server.key\ndh /etc/openvpn/dh.pem\n"
      ∷ [])

  abbrev pub tail_lines : ℕ → Bytes
  tail_lines id = concat (
      codes "keepalive 10 120\npersist-key\npersist-tun\nstatus /var/log/openvpn/status-"
      ∷ decimal id
      ∷ codes ".log\nlog-append /var/log/openvpn/openvpn-"
      ∷ decimal id
      ∷ codes ".log\nverb 3\nmanagement "
      ∷ management_path id
      ∷ codes " unix\nwritepid "
      ∷ pid_path id
      ∷ codes "\n"
      ∷ [])

  unfoldable pub conf_text : Answers → ℕ → VpnConfig → Bytes
  conf_text a id c = head_lines c ++ (mode_config a id c.mode ++ tail_lines id)

  -- The three certificate files.
  unfoldable pub write_certs : Answers → Bytes → VpnConfig → Files → Files
  write_certs a encryption_key c f = record f {
    ca_crt = written (write_cert_file a.ca_opened (text c.ca_cert)) f.ca_crt;
    server_crt = written (write_cert_file a.cert_opened (text c.server_cert)) f.server_crt;
    server_key =
        written
          (write_cert_file a.key_opened
            (server_key_text a.key_printed encryption_key (text c.server_key)))
          f.server_key;
  }

  -- From the configuration file on; `true` is a return of 0.
  unfoldable pub write_conf : Answers → ℕ → VpnConfig → Files → Files × Bool
  unfolding set_conf
  write_conf a id c f =
      if a.conf_opened
      then (
        record f {
          conf = set_conf id (conf_text a id c) f.conf;
          commands = f.commands ++ mode_commands a c.mode;
        },
        true,
      )
      else (f, false)

  unfoldable pub after_dh : Answers → ℕ → VpnConfig → Files → DhFile × Bool → Files × Bool
  unfolding write_conf
  after_dh a id c f (dh, false) = (record f { dh = dh }, false)
  after_dh a id c f (dh, true) = write_conf a id c (record f { dh = dh })

  unfoldable pub generate_for : Answers → Bytes → ℕ → Option VpnConfig → Files → Files × Bool
  unfolding write_certs after_dh
  generate_for a encryption_key id none f = (f, false)
  generate_for a encryption_key id (some c) f =
      after_dh a id c (write_certs a encryption_key c f) (prepare_dh a f.dh)

  unfoldable pub generate_openvpn_config : Answers → Bytes → ℕ → Tables → Files → Files × Bool
  unfolding generate_for
  generate_openvpn_config a encryption_key id db f =
      generate_for a encryption_key id (answered a.selected (find_config id db.configs)) f
