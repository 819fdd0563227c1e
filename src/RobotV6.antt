-- ===== src/RobotV6.antt =====
-- The protocol-v6 host client, src/host/robot_v6.
pub mod Codec
pub mod Transport
pub mod Session
pub mod Motion
pub mod Link
