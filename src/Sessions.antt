-- ===== src/Sessions.antt =====
-- master/monitor.c, update_sessions and split_line: the status report of a configuration's
-- management socket against the table vpn_sessions.
pub mod Report
pub mod Table
pub mod Split
pub mod Counts
pub mod Online
pub mod IdList
