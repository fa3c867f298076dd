-- ===== src/Lib.antt =====
-- A verification of the benchmark services of this repository: small servers over Apache Thrift, the
-- clients that load them, and what they compute.
--
-- The parts, and where they are modelled:
--
-- * Unique ids. DSBUniqueIDService and DSBUniqueIDAsyncService hold six servers (thread pool,
--   nonblocking and threaded) with the same functions: `get_counter` (UniqueId/Counter),
--   `HashMacAddressPid` and `GetMachineId` (UniqueId/Machine), and `compute_unique_id`
--   (UniqueId/Handler), which differs in what it prints and returns. The static variables of a server
--   process, its output, its sockets and the ways a call can end are in UniqueId/Process. UniqueId/
--   Uniqueness is about calls one after the other, UniqueId/Race about calls that overlap. The clock,
--   the answers of the system calls and the memory behind the MAC address text come as arguments.
-- * The thread pool. server_event_handler.cpp, the same in EchoService/echoservice-threadpool,
--   DSBUniqueIDService/threadpoolserver, DSBUniqueIDAsyncService/threadpoolserver and
--   MLInfer/threadpool, is PoolEvents. Thrift's ThreadManager is a parameter: a record of operations,
--   and a record of the laws that Thrift documents. Its events run on worker threads without a lock:
--   PoolEvents/Steps has them operation by operation, PoolEvents/Alone joins that with the events as a
--   whole, PoolEvents/Size and Overshoot say what comes of it.
-- * Model inference. `compute_list` of the servers under MLInfer (tthreaded, nonblocking, threadpool)
--   is in Inference: the loops that copy a client's numbers (Inference/Copy) and that fill the tensor
--   (Inference/Tensor), and what a call gives (Inference/Answer, Inference/Short). Inference/Values is
--   `computed_value`, which runs the model on ones. Torch and the number types are a parameter.
-- * Clients. Clients says what a client does over a network that is a parameter: the load clients
--   (`run_workload_gen` of DSBUniqueIDService/*/uniqueid_client_1.cpp, MLInfer/tthreaded/
--   compute_client_1.cpp and EchoServerHindsight/tthreaded/echo_client.cpp; Clients/Load, and the threads
--   that run it, Clients/Threads), the REST
--   proxies (`onRequest` of DSBUniqueIDService/*/uniqueid_client.cpp, MLInfer/*/compute_client.cpp and
--   EchoService/echoservice-ttd/hello_client.cpp; Clients/Proxies) and the `main` functions of the
--   clients that make one call or read a console (Clients/Single). Where they connect is an Endpoint
--   (Endpoints). A program's uncaught exception and a loop that goes on are outcomes.
-- * Services. TradeHistory is dump/nonblocking/nb_server.cpp (its `main` is TradeHistory/Console), Motd is
--   dump/tthreaded/factory_server.cpp, Echo holds the handlers of EchoService, EchoServerHindsight and
--   AsyncEchoServer. Servers is what the `main` functions set up; Servers/Matching compares it with the
--   clients, Servers/Pools joins it with PoolEvents.
-- * Remote calls. Rpc is the code that the Thrift compiler generated, of which the repository keeps a copy
--   with each program (gen-cpp): of equal copies one is modelled. Thrift itself is a parameter: Rpc/Wire
--   has `TProtocol` as a record of operations that may throw, Rpc/Wire/Ends what Thrift documents of it
--   and how a computation ends. What every struct's `read` and `write` repeat is Rpc/Struct, what every
--   client and processor repeat is Rpc/Call (`send_…`, `recv_…`, `dispatchCall`, `process_…`) and Rpc/Call/
--   Concurrent (the clients that threads share); results are Rpc/Results. The services: UniqueId and
--   UniqueIdAsync (DSBUniqueIDService, DSBUniqueIDAsyncService), HelloWorld and EchoService with
--   TraceContext (EchoService, EchoServerHindsight), AsyncService (AsyncEchoServer), Compute (MLInfer),
--   TradeHistory with TradeReport and Message (dump). Rpc/TradeHistory/Client
--   is the program dump/nonblocking/nb_client.cpp over its stub; the lines that a
--   program reads and shows are Rpc/Terminal. Rpc/UniqueId/Session, Rpc/Message/Session,
--   Rpc/TradeHistory/Session and Rpc/Compute/Session join the stubs with the handlers of UniqueId, Motd,
--   TradeHistory and Inference.
-- * Format holds what the services use of the C++ library to print and read numbers, Prelude the
--   shared names and lemmas, Tests the runs and instances at concrete inputs.
--
-- Texts are lists of bytes. int64_t timestamps are integers, read as 64 bits where they are printed;
-- counters, sizes and hashes are natural numbers with their wrap-around written out. Undefined
-- behaviour (an overflowing int, a deleted context) is a result of its own. Loops run over lists or
-- counted rounds, but for the clients' loops that may never end, which take fuel: the theorems say how
-- much is enough, or that none is. The loop over the fields of a struct takes fuel too, one more than
-- there are fields, and so does the wait of a concurrent client, one more than the replies before its
-- own. Numbers are printed through at most 16 hexadecimal or 20 decimal
-- digits, enough for 64 bits.
--
-- Not modelled: of the generated stubs the byte counts, recursion trackers, printing, copying, comparison
-- and factories, Thrift's own code and its limit on nested values, the threads of the servers but for
-- the pool's events, the load generator (which does not compile), logging, what compute_list and
-- get_last_sale print, build files, and the Lua client.
pub mod Prelude
pub mod Format
pub mod UniqueId
pub mod PoolEvents
pub mod Inference
pub mod Endpoints
pub mod Clients
pub mod TradeHistory
pub mod Motd
pub mod Echo
pub mod Servers
pub mod Rpc
mod Tests
