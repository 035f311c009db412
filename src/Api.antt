-- ===== src/Api.antt =====
-- internal/api: the JSON-RPC handler of the daemon.
pub mod Reconcile
pub mod Handle
pub mod Serve
