-- ===== src/Rpc.antt =====
-- apps/api/src/modules/rpc: the proxy of JSON-RPC calls to the upstream endpoints.
pub mod Fetch
pub mod Cache
pub mod FetchProbe
pub mod FetchOutcome
mod Tests
