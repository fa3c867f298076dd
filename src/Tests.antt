-- ===== src/Tests.antt =====
-- Runs at concrete inputs, and the theorems at inputs that meet their hypotheses.
mod Loopback
mod Format
mod UniqueId
mod Race
mod PoolEvents
mod Inference
mod Inferring
mod Clients
mod Rpc
mod Structs
mod Sessions
mod SaleClient
mod Services
mod Servers
