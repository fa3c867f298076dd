-- ===== src/UniqueId.antt =====
-- DSBUniqueIDService and DSBUniqueIDAsyncService: the servers that make 64-bit identifiers from the
-- machine, the time and a counter.
pub mod Process
pub mod Counter
pub mod Machine
pub mod Handler
pub mod Uniqueness
pub mod Race
