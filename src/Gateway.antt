-- ===== src/Gateway.antt =====
-- internal/gateway: Modbus TCP on behalf of the unit.
pub mod Breaker
pub mod Acl
pub mod Server
pub mod Names
mod Examples
