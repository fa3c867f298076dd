-- ===== src/Clients/Proxies.antt =====
-- The REST proxies: `RESTProxyHandler::onRequest`, which answers a web request with what a call of the
-- stub gives. Some of them keep one transport, others make one for each request; the destructor of
-- TSocket, which closes what is still open, is Thrift's and has no part here.
pub mod Requests
pub mod Fresh
pub mod Kept
use apache_thrift_benchmarki.Prelude.{ℕ, ◌≡◌, List, [], ◌∷◌, ◌++◌}
use apache_thrift_benchmarki.Format.{Text, codes}
use apache_thrift_benchmarki.Endpoints.{Endpoint, framed, buffered, json, compact}
use apache_thrift_benchmarki.Clients.{
  Request, Action, Network, C, ◌>>=◌, ◌>>◌, return, act, open_transport, open_if_closed, ask,
  logged, printed, responded, closed,
}
use apache_thrift_benchmarki.Clients.Load.{timed}

abbrev pub hello_proxy_endpoint : Endpoint
hello_proxy_endpoint = record {
  host = codes "127.0.0.1";
  port = 3046;
  framing = framed;
  codec = json;
}

abbrev pub id_thread_pool_endpoint : Endpoint
id_thread_pool_endpoint = record {
  host = codes "127.0.0.1";
  port = 3068;
  framing = buffered;
  codec = compact;
}

abbrev pub id_nonblocking_endpoint : Endpoint
id_nonblocking_endpoint = record {
  host = codes "127.0.0.1";
  port = 3067;
  framing = framed;
  codec = compact;
}

abbrev pub id_threaded_endpoint : Endpoint
id_threaded_endpoint = record {
  host = codes "127.0.0.1";
  port = 3066;
  framing = framed;
  codec = json;
}

abbrev pub compute_threaded_endpoint : Endpoint
compute_threaded_endpoint = record {
  host = codes "127.0.0.1";
  port = 3056;
  framing = framed;
  codec = json;
}

abbrev pub compute_nonblocking_endpoint : Endpoint
compute_nonblocking_endpoint = record {
  host = codes "127.0.0.1";
  port = 3057;
  framing = framed;
  codec = compact;
}

abbrev pub compute_thread_pool_endpoint : Endpoint
compute_thread_pool_endpoint = record {
  host = codes "127.0.0.1";
  port = 3058;
  framing = buffered;
  codec = compact;
}

module _ {W : Type 0} (net : Network W) where
  -- The part of a request that comes once the transport is open.
  abbrev pub hello_reply : C W (Unit {0})
  hello_reply = do
    out ← timed net hello_proxy_endpoint Request.hello_world
    act (printed out)
    act (responded out)

  abbrev pub compute_reply : Endpoint → C W (Unit {0})
  compute_reply endpoint = do
    _ ← timed net endpoint (Request.compute_list 3 224 224)
    act (responded (codes "Finished Compute"))

  -- EchoService/echoservice-ttd
  unfoldable pub hello_on_request : C W (Unit {0})
  hello_on_request = do open_if_closed net hello_proxy_endpoint; hello_reply

  -- DSBUniqueIDService/threadpoolserver
  unfoldable pub id_thread_pool_on_request : C W (Unit {0})
  id_thread_pool_on_request = do
    open_transport net id_thread_pool_endpoint
    mono ← timed net id_thread_pool_endpoint (Request.compute_unique_id 100)
    act (responded mono)

  -- DSBUniqueIDService/nonblocking
  unfoldable pub id_nonblocking_on_request : C W (Unit {0})
  id_nonblocking_on_request = do
    open_transport net id_nonblocking_endpoint
    mono ← ask net id_nonblocking_endpoint (Request.compute_unique_id 100)
    act (responded mono)

  -- DSBUniqueIDService/tthreadedserver
  unfoldable pub id_threaded_on_request : C W (Unit {0})
  id_threaded_on_request = do
    open_transport net id_threaded_endpoint
    mono ← ask net id_threaded_endpoint (Request.compute_unique_id 100)
    act closed
    act (responded mono)

  -- MLInfer/tthreaded
  unfoldable pub compute_threaded_on_request : C W (Unit {0})
  compute_threaded_on_request = do
    open_transport net compute_threaded_endpoint
    _ ← timed net compute_threaded_endpoint (Request.compute_list 3 224 224)
    act (responded (codes "Finished Compute"))
    act closed

  -- MLInfer/nonblocking
  unfoldable pub compute_nonblocking_on_request : C W (Unit {0})
  compute_nonblocking_on_request = do
    open_if_closed net compute_nonblocking_endpoint
    compute_reply compute_nonblocking_endpoint

  -- MLInfer/threadpool
  unfoldable pub compute_thread_pool_on_request : C W (Unit {0})
  compute_thread_pool_on_request = do
    open_if_closed net compute_thread_pool_endpoint
    compute_reply compute_thread_pool_endpoint
