-- ===== src/RateLimit.antt =====
-- apps/api/src: the request limits. `FixedWindow` is what three of the guards share; each of the
-- other modules is one guard or service.
pub mod FixedWindow
pub mod Policies
pub mod ShareResolve
pub mod RpcGuard
pub mod OwnerWindow
pub mod RpcActivate
mod Tests
