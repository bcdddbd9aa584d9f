-- ===== src/Tests/LoggerTests.antt =====
-- Messages with passwords and keys.
use ovpn_manager.Prelude.{
  suc, ◌+◌, ◌*◌, ◌≤◌, ◌<◌, ◌≡◌, refl, true, ◌∷◌, ◌++◌, some, Bytes, codes, length, starts_with,
  arith,
}
use ovpn_manager.Logger.{mask_step, mask_sensitive, log_message, should_log}
use ovpn_manager.Logger.Texts.{ps}
use ovpn_manager.Logger.Ends.{mask_sensitive-ends}
use ovpn_manager.Logger.Masked.{setting, onto, is_inert, is_password, mask_sensitive-password}

mask_sensitive-ends_example :
    (t : Bytes) × (mask_sensitive 60 (codes "password=ab x") ≡ some t)
    × (length t ≤ length (codes "password=ab x") + 9 * ps (codes "password=ab x"))
unfolding ps
mask_sensitive-ends_example = mask_sensitive-ends 60 (codes "password=ab x") (omega arith)

mask_sensitive-password_example :
    (length (codes "hunter2") < 20
      → mask_sensitive (suc (18 + 30)) (setting (codes "hunter2" ++ (b' ' ∷ codes "ok")))
        ≡ onto (setting (codes "[PASSWORD]")) (mask_sensitive 30 (b' ' ∷ codes "ok")))
    × (20 ≤ length (codes "hunter2")
        → is_inert (codes "hunter2") ≡ true
        → mask_sensitive
            (suc (8 + (length (codes "hunter2") + 30)))
            (setting (codes "hunter2" ++ (b' ' ∷ codes "ok")))
          ≡ onto (setting (codes "hunter2")) (mask_sensitive 30 (b' ' ∷ codes "ok")))
unfolding is_password
mask_sensitive-password_example = mask_sensitive-password 30 (codes "hunter2") (codes "ok") refl

log_run :
    log_message 200 1 6 (codes "user ann password: s3 tail")
    ≡ some (codes "user ann password: [PASSWORD] tail")
unfolding log_message mask_step should_log starts_with
log_run = refl

block_run :
    log_message 200 1 3 (codes "key -----BEGIN X-----\nAAAA\n-----END X-----\nend")
    ≡ some (codes "key [PRIVATE KEY REDACTED]\nend")
unfolding log_message mask_step should_log starts_with
block_run = refl
