-- ===== src/Rpc.antt =====
-- The remote call stubs that the Thrift compiler generated and the repository keeps (gen-cpp): the
-- structs of arguments and results, the clients and the processors of its services.
pub mod Wire
pub mod Struct
pub mod Call
pub mod Results
pub mod Terminal
pub mod UniqueId
pub mod Message
pub mod HelloWorld
pub mod UniqueIdAsync
pub mod AsyncService
pub mod TraceContext
pub mod TradeReport
pub mod EchoService
pub mod TradeHistory
pub mod Compute
