-- ===== src/Script.antt =====
-- cmd/mh2c: the scripts. The children hold the files script_value.go, script_frame.go, script.go
-- and script_receive.go.
pub mod Values
pub mod Text
pub mod Fields
pub mod Build
pub mod Repeat
pub mod Options
pub mod Receive
pub mod Run
pub mod Framed
pub mod Numbers
pub mod Iterations
pub mod Pause
pub mod Sequence
pub mod Spec
pub mod Parser
