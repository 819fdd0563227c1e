-- ===== src/Tests.antt =====
-- The theorems at concrete inputs.
mod Codec
mod Session
mod Resend
mod Daemon
mod Protocol
mod RobotConfig
mod Motion
mod Client
mod Naming
mod Target
mod Cli
mod Tools
mod Link
mod Serve
mod Remote
