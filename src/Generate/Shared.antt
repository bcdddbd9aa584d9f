-- ===== src/Generate/Shared.antt =====
-- Which files a configuration has for itself, and which it shares with the others.
use ovpn_manager.Prelude.{
  ℕ, ◌≡◌, ◌≢◌, refl, sym, ap, ◌∙◌, Bool, true, false, ◌&&◌, Option, some, ◌==◌, if◌then◌else◌,
  Bytes, List, [], ◌∷◌, ◌++◌, none, append_assoc, codes, drop, arith,
}
use ovpn_manager.Prelude.Int.{digits_value}
use ovpn_manager.Prelude.Digits.{digits_value-decimal}
use ovpn_manager.Prelude.Decimal.{decimal}
use ovpn_manager.Certs.X509.{Openssl}
use ovpn_manager.Schema.{VpnConfig, Tables, text}
use ovpn_manager.Requests.{answered}
use ovpn_manager.Authorities.Rows.{find_config}
use ovpn_manager.Generate.{
  DhFile, absent, unfinished, Files, Answers, written, prepare_dh, pid_path, management_path,
  set_conf, server_key_text, mode_config, tail_lines, conf_text, write_certs, write_conf, after_dh,
  generate_for, generate_openvpn_config,
}
use ovpn_manager.Generate.Text.{contents, write_cert_file}

-- The number in a path, behind `n` bytes.
abbrev path_id : ℕ → Bytes → ℕ
path_id n path = digits_value 0 (drop n path)

path_id-pid_path : (id : ℕ) → path_id 21 (pid_path id) ≡ id
unfolding pid_path digits_value
path_id-pid_path id = digits_value-decimal id (codes ".pid")

path_id-management_path : (id : ℕ) → path_id 28 (management_path id) ≡ id
unfolding management_path digits_value
path_id-management_path id = digits_value-decimal id (codes ".sock")

-- Two configurations never have the same pid file, nor the same management socket.
pub paths_differ :
    (i j : ℕ) → i ≢ j → (pid_path i ≢ pid_path j) × (management_path i ≢ management_path j)
paths_differ i j other = (
  λ e. other (sym (path_id-pid_path i) ∙ ap (path_id 21) e ∙ path_id-pid_path j),
  λ e. other (sym (path_id-management_path i) ∙ ap (path_id 28) e ∙ path_id-management_path j),
)

-- Whether prepare_dh goes on.
abbrev pub dh_ready : Answers → DhFile → Bool
dh_ready a absent = a.dh_opened && a.dh_made
dh_ready a d = true

-- Directives, each with its argument if it has one, in front of a text.
unfoldable pub lines_onto : List (Bytes × Option Bytes) → Bytes → Bytes
lines_onto [] rest = rest
lines_onto ((name, none) ∷ ls) rest = name ++ (10 ∷ lines_onto ls rest)
lines_onto ((name, some s) ∷ ls) rest = name ++ (b' ' ∷ (s ++ (10 ∷ lines_onto ls rest)))

-- A path with a number in it.
abbrev pub numbered : Bytes → ℕ → Bytes → Bytes
numbered front id back = front ++ (decimal id ++ back)

unfoldable pub is_found : Option VpnConfig → Bool
is_found none = false
is_found (some c) = true

abbrev pub file_of : (VpnConfig → Bytes) → Option VpnConfig → Option Bytes
file_of f none = none
file_of f (some c) = some (f c)

module _ (o : Openssl) (inet_aton : Bytes → Option ℕ) where
  -- The file of a configuration of which the middle, the lines of its mode, is given.
  abbrev pub file_text : ℕ → VpnConfig → Bytes → Bytes
  file_text id c middle =
      lines_onto
        ((codes "port", some (decimal c.port))
          ∷ (codes "proto", some c.proto)
          ∷ (codes "ca", some (codes "/etc/openvpn/ca.crt"))
          ∷ (codes "cert", some (codes "/etc/openvpn/server.crt"))
          ∷ (codes "key", some (codes "/etc/openvpn/server.key"))
          ∷ (codes "dh", some (codes "/etc/openvpn/dh.pem"))
          ∷ [])
        (middle
          ++ lines_onto
              ((codes "keepalive", some (codes "10 120"))
                ∷ (codes "persist-key", none)
                ∷ (codes "persist-tun", none)
                ∷ (
                  codes "status",
                  some (numbered (codes "/var/log/openvpn/status-") id (codes ".log")),
                )
                ∷ (
                  codes "log-append",
                  some (numbered (codes "/var/log/openvpn/openvpn-") id (codes ".log")),
                )
                ∷ (codes "verb", some (codes "3"))
                ∷ (
                  codes "management",
                  some (numbered (codes "/var/run/openvpn/management-") id (codes ".sock unix")),
                )
                ∷ (
                  codes "writepid",
                  some (numbered (codes "/var/run/openvpn/vpn-") id (codes ".pid")),
                )
                ∷ [])
              [])

  conf_text-file_text :
      (a : Answers) (id : ℕ) (c : VpnConfig)
      → conf_text o inet_aton a id c ≡ file_text id c (mode_config o inet_aton a id c.mode)
  unfolding conf_text lines_onto pid_path management_path
  conf_text-file_text a id c = simp append_assoc

  generate_for_lem :
      (a : Answers) (k : Bytes) (id : ℕ) (row : Option VpnConfig) (f : Files) (j : ℕ)
      → let (after, success) = generate_for o inet_aton a k id row f in
        (success ≡ (is_found row && (dh_ready a f.dh && a.conf_opened)))
        × (after.conf j ≡ (
            if success && j == id
            then file_of (λ c. file_text id c (mode_config o inet_aton a id c.mode)) row
            else f.conf j))
  unfolding generate_for after_dh write_conf prepare_dh set_conf write_certs is_found
  generate_for_lem a k id none f j = (refl, refl)
  generate_for_lem a k id (some c) f j = ground (arith, conf_text-file_text a id c)

  generate_answered_lem :
      (selected : Bool) (a : Answers) (k : Bytes) (id : ℕ) (row : Option VpnConfig) (f : Files)
      (j : ℕ)
      → let (after, success) = generate_for o inet_aton a k id (answered selected row) f in
        (success ≡ (selected && (is_found row && (dh_ready a f.dh && a.conf_opened))))
        × (after.conf j ≡ (
            if success && j == id
            then file_of (λ c. file_text id c (mode_config o inet_aton a id c.mode)) row
            else f.conf j))
  unfolding generate_for
  generate_answered_lem true a k id row f j = generate_for_lem a k id row f j
  generate_answered_lem false a k id row f j = (refl, refl)

  -- The result is 0 exactly if the configuration is found, the DH file was there or could be made,
  -- and the configuration file could be opened; then that file holds the directives with the
  -- configuration's port and protocol, the paths of the shared certificate files, what mode_config
  -- gives for its mode, and the log, management and pid files with its id; those of the other
  -- configurations are as before. Otherwise none has changed.
  pub generate_openvpn_config_lem :
      (a : Answers) (k : Bytes) (id : ℕ) (db : Tables) (f : Files) (j : ℕ)
      → let row = find_config id db.configs in
        let (after, success) = generate_openvpn_config o inet_aton a k id db f in
        (success ≡ (a.selected && (is_found row && (dh_ready a f.dh && a.conf_opened))))
        × (after.conf j ≡ (
            if success && j == id
            then file_of (λ c. file_text id c (mode_config o inet_aton a id c.mode)) row
            else f.conf j))
  unfolding generate_openvpn_config
  generate_openvpn_config_lem a k id db f j =
      generate_answered_lem a.selected a k id (find_config id db.configs) f j

  pub generate_openvpn_config-conf_text :
      (a : Answers) (k : Bytes) (id : ℕ) (db : Tables) (f : Files) (c : VpnConfig) (j : ℕ)
      → find_config id db.configs ≡ some c
      → let (after, success) = generate_openvpn_config o inet_aton a k id db f in
        (success ≡ (a.selected && (dh_ready a f.dh && a.conf_opened)))
        × (after.conf j
            ≡ (if success && j == id then some (conf_text o inet_aton a id c) else f.conf j))
  unfolding generate_openvpn_config generate_for after_dh write_conf prepare_dh set_conf write_certs
  generate_openvpn_config-conf_text a k id db f c j found = ground arith

  key_written :
      (b : Answers) (k : Bytes) (j : ℕ) (db : Tables) (f : Files) (d : VpnConfig) (key : Bytes)
      → find_config j db.configs ≡ some d
      → write_cert_file b.key_opened
          (server_key_text o inet_aton b.key_printed k (text d.server_key))
        ≡ contents key
      → b.selected ≡ true
      → (generate_openvpn_config o inet_aton b k j db f).0.server_key ≡ some key
  unfolding generate_openvpn_config generate_for after_dh write_conf prepare_dh write_certs written
  key_written b k j db f d key dj text_is chosen = ground arith

  -- What stands in front of the line for the key.
  abbrev in_front_of_key : VpnConfig → Bytes
  in_front_of_key c =
      codes "port "
      ++ (decimal c.port
          ++ (codes "\nproto "
              ++ (c.proto ++ codes "\nca /etc/openvpn/ca.crt\ncert /etc/openvpn/server.crt")))

  conf_text-key :
      (a : Answers) (id : ℕ) (c : VpnConfig)
      → (rest : Bytes) × (conf_text o inet_aton a id c
          ≡ in_front_of_key c ++ (codes "\nkey /etc/openvpn/server.key\n" ++ rest))
  unfolding conf_text lines_onto
  conf_text-key a id c = (
    codes "dh /etc/openvpn/dh.pem\n"
        ++ (mode_config o inet_aton a id c.mode ++ tail_lines o inet_aton id),
    simp append_assoc,
  )

  -- The key file is shared: after two configurations were generated one after the other, the first
  -- one's file has the line that names /etc/openvpn/server.key, and that file holds the second
  -- one's key.
  pub generate_openvpn_config_shared :
      (a b : Answers) (k : Bytes) (i j : ℕ) (db : Tables) (f : Files) (c d : VpnConfig)
      (key : Bytes)
      → find_config i db.configs ≡ some c
      → find_config j db.configs ≡ some d
      → j ≢ i
      → write_cert_file b.key_opened
          (server_key_text o inet_aton b.key_printed k (text d.server_key))
        ≡ contents key
      → b.selected ≡ true
      → (generate_openvpn_config o inet_aton a k i db f).1 ≡ true
      → let after =
          (generate_openvpn_config o inet_aton b k j db
            (generate_openvpn_config o inet_aton a k i db f).0).0 in
        ((before : Bytes) × (rest : Bytes) × (after.conf i
            ≡ some (before ++ (codes "\nkey /etc/openvpn/server.key\n" ++ rest))))
        × (after.server_key ≡ some key)
  generate_openvpn_config_shared a b k i j db f c d key ci dj other text_is chosen first =
      let one = generate_openvpn_config_lem a k i db f i in
      let two =
        generate_openvpn_config_lem b k j db (generate_openvpn_config o inet_aton a k i db f).0 i in
      let (rest, has_line) = conf_text-key a i c in
      (
        (in_front_of_key c, rest, ground (arith, one, two, has_line, conf_text-file_text a i c)),
        key_written b k j db (generate_openvpn_config o inet_aton a k i db f).0 d key dj text_is
            chosen,
      )

  -- A failure to make the DH parameters leaves an unfinished file behind, with which the next call
  -- succeeds.
  pub generate_openvpn_config_unfinished :
      (a b : Answers) (k : Bytes) (id : ℕ) (db : Tables) (f : Files) (c : VpnConfig)
      → find_config id db.configs ≡ some c
      → f.dh ≡ absent
      → a.selected ≡ true
      → a.dh_opened ≡ true
      → a.dh_made ≡ false
      → b.selected ≡ true
      → b.conf_opened ≡ true
      → let first = generate_openvpn_config o inet_aton a k id db f in
        let second = generate_openvpn_config o inet_aton b k id db first.0 in
        (first.1 ≡ false) × (second.1 ≡ true) × (second.0.dh ≡ unfinished)
  unfolding generate_openvpn_config generate_for after_dh write_conf prepare_dh write_certs
  generate_openvpn_config_unfinished a b k id db f c found none_yet s opened failed s' conf' =
      ground arith
