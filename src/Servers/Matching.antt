-- ===== src/Servers/Matching.antt =====
-- Which clients speak to the server of their own directory.
use apache_thrift_benchmarki.Prelude.{◌≡◌, refl, Bool, true, false, ◌&&◌, ◌==◌, not}
use apache_thrift_benchmarki.Endpoints.{Endpoint, Framing, Codec, framed, buffered, json, compact}
use apache_thrift_benchmarki.Servers.{
  Server, id_thread_pool_server, id_nonblocking_server, id_threaded_server,
  async_thread_pool_server, async_nonblocking_server, async_threaded_server,
  compute_thread_pool_server, compute_nonblocking_server, compute_threaded_server,
  echo_thread_pool_server, echo_nonblocking_server, echo_threaded_server, traced_echo_server,
  async_compute_server, motd_server,
}
use apache_thrift_benchmarki.Clients.Load.{
  thread_pool_endpoint, nonblocking_endpoint, threaded_endpoint, compute_endpoint, echo_endpoint,
}
use apache_thrift_benchmarki.Clients.Proxies.{
  hello_proxy_endpoint, id_thread_pool_endpoint, id_nonblocking_endpoint, id_threaded_endpoint,
  compute_threaded_endpoint, compute_nonblocking_endpoint, compute_thread_pool_endpoint,
}
use apache_thrift_benchmarki.Clients.Single.{
  async_threaded_endpoint, async_nonblocking_endpoint, async_thread_pool_endpoint,
  async_compute_endpoint, echo_thread_pool_endpoint, echo_nonblocking_endpoint, motd_endpoint,
}

-- The client programs.
pub data Client : Type 0 where
  id_thread_pool_load id_nonblocking_load id_threaded_load compute_load traced_echo_load : Client
  hello_proxy id_thread_pool_proxy id_nonblocking_proxy id_threaded_proxy : Client
  compute_threaded_proxy compute_nonblocking_proxy compute_thread_pool_proxy : Client
  async_threaded_single async_nonblocking_single async_thread_pool_single : Client
  async_compute_single echo_thread_pool_single echo_nonblocking_single motd_console : Client

-- Where a client connects.
abbrev pub target : Client → Endpoint
target id_thread_pool_load = thread_pool_endpoint
target id_nonblocking_load = nonblocking_endpoint
target id_threaded_load = threaded_endpoint
target compute_load = compute_endpoint
target traced_echo_load = echo_endpoint
target hello_proxy = hello_proxy_endpoint
target id_thread_pool_proxy = id_thread_pool_endpoint
target id_nonblocking_proxy = id_nonblocking_endpoint
target id_threaded_proxy = id_threaded_endpoint
target compute_threaded_proxy = compute_threaded_endpoint
target compute_nonblocking_proxy = compute_nonblocking_endpoint
target compute_thread_pool_proxy = compute_thread_pool_endpoint
target async_threaded_single = async_threaded_endpoint
target async_nonblocking_single = async_nonblocking_endpoint
target async_thread_pool_single = async_thread_pool_endpoint
target async_compute_single = async_compute_endpoint
target echo_thread_pool_single = echo_thread_pool_endpoint
target echo_nonblocking_single = echo_nonblocking_endpoint
target motd_console = motd_endpoint

-- The server in the client's directory.
abbrev pub own_server : Client → Server
own_server id_thread_pool_load = id_thread_pool_server
own_server id_nonblocking_load = id_nonblocking_server
own_server id_threaded_load = id_threaded_server
own_server compute_load = compute_threaded_server
own_server traced_echo_load = traced_echo_server
own_server hello_proxy = echo_threaded_server
own_server id_thread_pool_proxy = id_thread_pool_server
own_server id_nonblocking_proxy = id_nonblocking_server
own_server id_threaded_proxy = id_threaded_server
own_server compute_threaded_proxy = compute_threaded_server
own_server compute_nonblocking_proxy = compute_nonblocking_server
own_server compute_thread_pool_proxy = compute_thread_pool_server
own_server async_threaded_single = async_threaded_server
own_server async_nonblocking_single = async_nonblocking_server
own_server async_thread_pool_single = async_thread_pool_server
own_server async_compute_single = async_compute_server
own_server echo_thread_pool_single = echo_thread_pool_server
own_server echo_nonblocking_single = echo_nonblocking_server
own_server motd_console = motd_server

abbrev same_framing : Framing → Framing → Bool
same_framing framed framed = true
same_framing buffered buffered = true
same_framing _ _ = false

abbrev same_codec : Codec → Codec → Bool
same_codec json json = true
same_codec compact compact = true
same_codec _ _ = false

-- Same port, same transport, same protocol.
abbrev pub speaks_to : Endpoint → Server → Bool
speaks_to endpoint server =
    endpoint.port == server.port
    && (same_framing endpoint.framing server.framing && same_codec endpoint.codec server.codec)

-- The two clients that miss the port of their server.
abbrev pub misses : Client → Bool
misses id_threaded_load = true
misses echo_thread_pool_single = true
misses _ = false

-- Every client program names port, transport and protocol of the server in its directory, but the
-- load client of DSBUniqueIDService/tthreadedserver and the client of echoservice-threadpool.
pub target-own_server :
    (client : Client) → speaks_to (target client) (own_server client) ≡ not (misses client)
target-own_server id_thread_pool_load = refl
target-own_server id_nonblocking_load = refl
target-own_server id_threaded_load = refl
target-own_server compute_load = refl
target-own_server traced_echo_load = refl
target-own_server hello_proxy = refl
target-own_server id_thread_pool_proxy = refl
target-own_server id_nonblocking_proxy = refl
target-own_server id_threaded_proxy = refl
target-own_server compute_threaded_proxy = refl
target-own_server compute_nonblocking_proxy = refl
target-own_server compute_thread_pool_proxy = refl
target-own_server async_threaded_single = refl
target-own_server async_nonblocking_single = refl
target-own_server async_thread_pool_single = refl
target-own_server async_compute_single = refl
target-own_server echo_thread_pool_single = refl
target-own_server echo_nonblocking_single = refl
target-own_server motd_console = refl
