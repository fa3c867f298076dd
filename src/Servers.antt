-- ===== src/Servers.antt =====
-- How the servers are put together (their `main`): the port that they listen on, the transport and the
-- protocol that they speak, and their threads.
pub mod Pools
pub mod Matching
use apache_thrift_benchmarki.Prelude.{ℕ, ◌+◌, ◌/◌}
use apache_thrift_benchmarki.Endpoints.{Framing, Codec, framed, buffered, json, compact}

-- TThreadedServer; TNonblockingServer with a thread manager of so many workers and so many I/O threads;
-- TThreadPoolServer with `newSimpleThreadManager(workers, pending_task_count_max)` (0 where it is not
-- given) and the event handler's `t_min` and `t_max`.
pub data Threads : Type 0 where
  one_per_connection : Threads
  nonblocking : (workers io_threads : ℕ) → Threads
  pooled : (workers pending_task_count_max t_min t_max : ℕ) → Threads

pub record Server : Type 0 where
  pub port : ℕ
  pub framing : Framing
  pub codec : Codec
  pub threads : Threads

-- DSBUniqueIDService/threadpoolserver, nonblocking and tthreadedserver
abbrev pub id_thread_pool_server : Server
id_thread_pool_server = record {
  port = 3068;
  framing = buffered;
  codec = compact;
  threads = pooled 1 8 1 8;
}

abbrev pub id_nonblocking_server : Server
id_nonblocking_server = record {
  port = 3067;
  framing = framed;
  codec = compact;
  threads = nonblocking 4 4;
}

abbrev pub id_threaded_server : Server
id_threaded_server = record {
  port = 3066;
  framing = framed;
  codec = json;
  threads = one_per_connection;
}

-- DSBUniqueIDAsyncService/threadpoolserver, nonblockingserver and tthreadedserver
abbrev pub async_thread_pool_server : Server
async_thread_pool_server = record {
  port = 3078;
  framing = buffered;
  codec = compact;
  threads = pooled 1 8 1 8;
}

abbrev pub async_nonblocking_server : Server
async_nonblocking_server = record {
  port = 3077;
  framing = framed;
  codec = compact;
  threads = nonblocking 8 4;
}

abbrev pub async_threaded_server : Server
async_threaded_server = record {
  port = 3076;
  framing = framed;
  codec = json;
  threads = one_per_connection;
}

-- MLInfer/threadpool, nonblocking and tthreaded
abbrev pub compute_thread_pool_server : Server
compute_thread_pool_server = record {
  port = 3058;
  framing = buffered;
  codec = compact;
  threads = pooled 1 4 1 4;
}

abbrev pub compute_nonblocking_server : Server
compute_nonblocking_server = record {
  port = 3057;
  framing = framed;
  codec = compact;
  threads = nonblocking 2 2;
}

abbrev pub compute_threaded_server : Server
compute_threaded_server = record {
  port = 3056;
  framing = framed;
  codec = json;
  threads = one_per_connection;
}

-- EchoService/echoservice-threadpool, echoservice-nb and echoservice-ttd
abbrev pub echo_thread_pool_server : Server
echo_thread_pool_server = record {
  port = 3047;
  framing = buffered;
  codec = compact;
  threads = pooled 2 1 2 4;
}

abbrev pub echo_nonblocking_server : Server
echo_nonblocking_server = record {
  port = 3048;
  framing = framed;
  codec = compact;
  threads = nonblocking 4 4;
}

abbrev pub echo_threaded_server : Server
echo_threaded_server = record {
  port = 3046;
  framing = framed;
  codec = json;
  threads = one_per_connection;
}

-- EchoServerHindsight/tthreaded
abbrev pub traced_echo_server : Server
traced_echo_server = record {
  port = 3046;
  framing = framed;
  codec = json;
  threads = one_per_connection;
}

-- AsyncEchoServer
abbrev pub async_compute_server : Server
async_compute_server = record {
  port = 3076;
  framing = framed;
  codec = json;
  threads = one_per_connection;
}

-- dump/tthreaded
abbrev pub motd_server : Server
motd_server = record { port = 3062; framing = framed; codec = json; threads = one_per_connection }

-- dump/nonblocking, on a machine with `hw_threads` hardware threads.
abbrev pub trade_server : ℕ → Server
trade_server hw_threads = record {
  port = 9090;
  framing = framed;
  codec = compact;
  threads = nonblocking 1 (hw_threads / 2 + 1);
}
