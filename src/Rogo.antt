-- ===== src/Rogo.antt =====
-- The rogo host tools, src/host/rogo.
pub mod Json
pub mod Protocol
pub mod Daemon
pub mod RobotConfig
pub mod Client
pub mod Listener
pub mod Naming
pub mod Pumping
pub mod Target
pub mod Cli
pub mod Floats
pub mod TurnModel
pub mod Repl
pub mod Calibrate
pub mod Mcp
pub mod Serve
