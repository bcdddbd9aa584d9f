-- ===== src/Tests/SetupTests.antt =====
-- The first start of the daemon, and its configuration file.
use ovpn_manager.Prelude.{
  ℕ, List, ◌&&◌, zero, suc, ◌≡◌, refl, ◌⊎◌, true, false, [], ◌∷◌, none, some, Bytes, codes, map,
  concat, take, length, is_empty, contains_text, starts_with, find_char, arith, subst,
}
use ovpn_manager.Config.{tokens}
use ovpn_manager.Config.Bounds.{IsComplete}
use ovpn_manager.Config.Document.{document_tokens}
use ovpn_manager.Setup.{
  Site, SchemaAnswers, created, cleared, init_database, init_web_user, create_user, create_result,
}
use ovpn_manager.Setup.WebUser.{is_run, no_bytes, init_database-web_user}
use ovpn_manager.Setup.Clearing.{Line, keyed, plain, line_text, ended, written_line, cleared-lines}
use ovpn_manager.Startup.{Answers, serving, with_key, start_with, start_daemon}
use ovpn_manager.Startup.Serving.{start-serving}
use ovpn_manager.Tests.ConfigTests.{document, parsed, parse_config-run}

abbrev lines : List Line
lines = plain (codes "database") ∷ keyed (codes "  password") (codes " x") ∷ []

cleared-lines_example :
    cleared (concat (map ended (map line_text lines))) ≡ concat (map written_line (take 100 lines))
cleared-lines_example =
    cleared-lines lines (((refl, omega arith), refl), (((refl, omega arith), refl), tt))

cleared_text_run :
    cleared (codes "  name: vpn\n  password: s3cret\nlog:\n")
    ≡ codes "  name: vpn\n  password:  # cleared, auth via web-db-auth\nlog:\n"
unfolding cleared contains_text starts_with find_char
cleared_text_run = refl

abbrev zeros : ℕ → Bytes
zeros zero = []
zeros (suc n) = 0 ∷ zeros n

abbrev fresh_site : Site
fresh_site = record {
  initialized = false;
  role = true;
  web_user = none;
  web_db_auth = none;
  core_yaml = codes "log:\n";
}

abbrev first_start : Answers
first_start = record {
  config = tokens (document_tokens document);
  random_bytes = some (zeros 32);
  time = 1700000000;
  connected = true;
  answered = true;
  schema = record {
    opened = true;
    allocated = true;
    begun = true;
    executed = true;
    committed = true;
    web = record {
      random_bytes = some (zeros 32);
      user = created;
      auth_opened = true;
      readable = true;
      writable = true;
    };
  };
}

abbrev later_start : Answers
later_start = record first_start { connected = true }

abbrev ready_site : Site
ready_site = record fresh_site { initialized = true }

later_run :
    start_daemon later_start ready_site ≡ some (ready_site, serving (with_key later_start parsed))
unfolding start_daemon start_with
later_run = rw (parse_config-run, start_daemon) refl

start-serving_example :
    IsComplete (with_key later_start parsed)
    × (is_empty (with_key later_start parsed).encryption_key ≡ false)
    × ((later_start.answered ≡ false) ⊎ (ready_site.initialized ≡ true))
start-serving_example =
    start-serving later_start ready_site ready_site (with_key later_start parsed)
      (λ rs e. let same : zeros 32 ≡ rs = cc in subst (λ t. length t ≡ 32) same refl) later_run

-- Without random bytes the tables are set up, and nothing else.
abbrev no_random : SchemaAnswers
no_random = record first_start.schema {
  web = record first_start.schema.web { random_bytes = none };
}

init_database-web_user_example :
    (ready_site.web_user ≡ fresh_site.web_user)
    × (ready_site.web_db_auth ≡ fresh_site.web_db_auth)
    × (ready_site.core_yaml ≡ fresh_site.core_yaml)
    × (true ≡ (is_run no_random fresh_site && no_bytes no_random.web.random_bytes))
unfolding init_database init_web_user
init_database-web_user_example =
    init_database-web_user no_random parsed fresh_site ready_site true refl

-- With random bytes the first start is undefined, since the role is there.
first_run : init_database first_start.schema parsed fresh_site ≡ none
unfolding init_database init_web_user create_user create_result
first_run = refl

-- Without the role the script fails.
no_role_run :
    init_database first_start.schema parsed (record fresh_site { role = false })
    ≡ some (record fresh_site { role = false }, false)
unfolding init_database
no_role_run = refl
