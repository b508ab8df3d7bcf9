-- ===== src/Main.antt =====
-- cmd/mh2c/main.go: the run of a command, from its arguments to the end of its session.
pub mod Prepare
pub mod Prepared
pub mod Run
pub mod Connect
pub mod Secured
pub mod PingRun
