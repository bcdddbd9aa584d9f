-- ===== src/Lib.antt =====
-- Verification of the VPN manager's core daemon (master/), which reads a configuration file, keeps
-- OpenVPN processes and one monitor thread for each, writes their sessions to PostgreSQL, and
-- makes certificates and configuration texts.
--
-- The parts, and the files that model them:
--   Config     master/config.c, parse_config. The state of its loop is the record Parser, its
--              `switch` is `step`, its loop `scan`; what libyaml's scanner yields is a token list.
--              Fields and Settings describe by field what a document of sections asks for.
--   Monitor    master/monitor.c, get_monitor_ctx, monitor_start, monitor_stop and the return of a
--              thread, on the record Registry (`monitors` and `running_configs`).
--              Monitor.Thread is the loop of monitor_thread, with update_sessions in each round.
--   Process    master/openvpn.c, get_openvpn_pid, stop_openvpn and start_openvpn, and
--              monitor_stop_all of master/monitor.c. They call Monitor's operations; the pid file
--              and the results of kill, fork, waitpid and pthread_create are arguments.
--   Sessions   master/monitor.c, split_line and update_sessions: Report reads the management
--              socket's text, Table applies the SQL statements of the source to a list of rows.
--   Certs      master/cert_utils.c: SQL escaping, fingerprints, and the passwords of private keys
--              over OpenSSL's PEM functions, which are the record Pem.
--   Schema     the tables of schema.sql: the record Tables.
--   Requests   the parameters of a request, the responses, and chains of steps that end with an
--              error response at the first one that fails.
--   Certs.X509  sign_certificate of master/cert_utils.c, over OpenSSL, which is the record Openssl;
--              what it answers to one request is the record Crypto.
--   Authorities  master/ca_handler.c, handle_generate_ca_cert, handle_sign_server_cert and
--              handle_delete_ca_cert. Rows has the SQL statements. What OpenSSL and the database
--              answer to one request is the record Answers.
--   Clients    master/client_handler.c: handle_revoke_client_cert and handle_get_client_config;
--              Issue has handle_gen_client_cert.
--   Generate   master/openvpn.c, generate_openvpn_config, with the files and the commands run as
--              the record Files: Text has write_cert_file and generate_tun_config, Bridge
--              generate_tap_config and ensure_bridge_exists.
--   Network    master/openvpn.c, cidr_to_netmask and calc_ip_pool, over inet_aton as an argument.
--   Server     master/socket_server.c, dispatch_request and its handlers, over the record Daemon,
--              which holds the registry of monitors, the tables and the files. It calls Process,
--              Generate, Authorities, Clients and Monitor.Kick (kick_client of master/monitor.c).
--              State holds the record, Actions the chain of names; what the system answers is the
--              record Answers. Listen is start_socket_server, as the sequence of its calls.
--   Logger     master/logger.c: the levels, and the masking of a message.
--   Setup      master/database.c, init_database, init_web_user and clear_config_password, and
--              generate_random_key of master/config.c. What they write is the record Site;
--              schema.sql is one step that needs the role vpn_web.
--   Startup    master/main.c, main up to the socket server, over parse_config and init_database.
--   Prelude    native numbers, lists, C strings, `int`, decimal output, bits.
--   Tests      the theorems at concrete inputs, and runs.
--
-- Conventions. A C string is the list of its bytes without the NUL, and a `char` array of the
-- configuration is the string that it holds. An `int` is an integer with a sign where the code
-- tests or changes it and does not wrap; configuration and row ids are native numbers, since the
-- code only compares them. `none` stands for a null pointer, or for a return of -1 where the code
-- gives nothing else. There is fuel in `decimal`, over the number that it prints, and so over the
-- number of its digits, and in `mask_sensitive`, where one round for each byte and nine more for
-- each 'p' are enough. `monitor_thread` has a number of rounds to make. Every other loop recurs
-- on its input or on the rounds that it has left. A statement that the database refuses changes
-- nothing. Where the code overflows an int (the lifetime of a certificate), frees a result twice or
-- reads in front of a buffer, the model has a value of its own for it (`none`, `out_of_bounds`); where
-- the list of ids in update_sessions does not fit its array, the model leaves the last UPDATE out,
-- and the theorems on it assume that the list fits.
--
-- Not modelled: the reads, the writes and the JSON of a connection, and what handle_get_ca_cert replies
-- from freed memory; the calls that only reach libpq, the time stamps and syslog of the logger, the
-- permissions of files; the child side of the fork; threads that run at the same time, and pointers
-- into `monitors` that realloc moves; connect_db and the statements by which init_web_user grants
-- rights; the web interface, which is not C.
pub mod Prelude
pub mod Config
pub mod Schema
pub mod Requests
pub mod Monitor
pub mod Process
pub mod Sessions
pub mod Authorities
pub mod Certs
pub mod Clients
pub mod Generate
pub mod Network
pub mod Server
pub mod Logger
pub mod Setup
pub mod Startup
mod Tests
