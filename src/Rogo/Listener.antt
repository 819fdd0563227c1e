-- ===== src/Rogo/Listener.antt =====
-- The listeners of src/host/rogo/daemon.py.
pub mod Connection
pub mod Lifecycle
