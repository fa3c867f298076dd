-- ===== src/Clients/Single.antt =====
-- The clients that make one call, and the client of dump/tthreaded, which calls until its user enters
-- `q`.
pub mod Endings
use apache_thrift_benchmarki.Prelude.{
  ℕ, zero, suc, ◌≡◌, Bool, true, false, List, [], ◌∷◌, ◌++◌, if◌then◌else◌,
}
use apache_thrift_benchmarki.Format.{Text, codes, same_text}
use apache_thrift_benchmarki.Endpoints.{Endpoint, framed, buffered, json, compact}
use apache_thrift_benchmarki.Clients.{
  Request, Action, Network, Outcome, running, C, ◌>>=◌, ◌>>◌, return, act, open_transport, ask,
  try_catch, complained, logged, printed, closed,
}
use apache_thrift_benchmarki.Clients.Load.{timed}

-- Of DSBUniqueIDAsyncService/tthreadedserver, nonblockingserver and threadpoolserver, of
-- AsyncEchoServer, of EchoService/echoservice-threadpool and echoservice-nb, and of dump/tthreaded.
abbrev pub async_threaded_endpoint : Endpoint
async_threaded_endpoint = record {
  host = codes "127.0.0.1";
  port = 3076;
  framing = framed;
  codec = json;
}

abbrev pub async_nonblocking_endpoint : Endpoint
async_nonblocking_endpoint = record {
  host = codes "127.0.0.1";
  port = 3077;
  framing = framed;
  codec = compact;
}

abbrev pub async_thread_pool_endpoint : Endpoint
async_thread_pool_endpoint = record {
  host = codes "127.0.0.1";
  port = 3078;
  framing = buffered;
  codec = compact;
}

abbrev pub async_compute_endpoint : Endpoint
async_compute_endpoint = record {
  host = codes "127.0.0.1";
  port = 3076;
  framing = framed;
  codec = json;
}

abbrev pub echo_thread_pool_endpoint : Endpoint
echo_thread_pool_endpoint = record {
  host = codes "localhost";
  port = 3048;
  framing = buffered;
  codec = compact;
}

abbrev pub echo_nonblocking_endpoint : Endpoint
echo_nonblocking_endpoint = record {
  host = codes "localhost";
  port = 3048;
  framing = framed;
  codec = compact;
}

abbrev pub motd_endpoint : Endpoint
motd_endpoint = record { host = codes "localhost"; port = 3062; framing = framed; codec = json }

-- Standard input: the lines to come, each ended by a newline, and whether the stream has not failed.
pub record Console : Type 0 where
  pub lines : List Text
  pub good : Bool

-- `std::getline(std::cin, msg)`: the end of the input leaves an empty text, and makes later reads leave
-- `msg` as it is.
unfoldable pub getline : Console → Text → Text × Console
getline console msg =
    if console.good
    then elim console.lines [
      | [] ↦ ([], record console { good = false })
      | line ∷ lines ↦ (line, record console { lines = lines })
    ]
    else (msg, console)

module _ {W : Type 0} (net : Network W) where
  -- DSBUniqueIDAsyncService
  unfoldable pub async_threaded_main : C W (Unit {0})
  async_threaded_main = do
    open_transport net async_threaded_endpoint
    _ ← ask net async_threaded_endpoint (Request.compute_unique_id 100)
    act closed

  unfoldable pub async_nonblocking_main : C W (Unit {0})
  async_nonblocking_main = do
    open_transport net async_nonblocking_endpoint
    _ ← ask net async_nonblocking_endpoint (Request.compute_unique_id 100)
    act closed

  unfoldable pub async_thread_pool_main : C W (Unit {0})
  async_thread_pool_main = do
    open_transport net async_thread_pool_endpoint
    _ ← ask net async_thread_pool_endpoint (Request.compute_unique_id 100)
    act closed

  -- AsyncEchoServer
  unfoldable pub async_compute_main : C W (Unit {0})
  async_compute_main = do
    open_transport net async_compute_endpoint
    _ ← ask net async_compute_endpoint (Request.compute_result 100 200)
    act (printed (codes "Closing Client"))
    act closed

  -- EchoService/echoservice-threadpool: opened before the `try`.
  unfoldable pub echo_thread_pool_main : C W (Unit {0})
  echo_thread_pool_main = do
    open_transport net echo_thread_pool_endpoint
    try_catch (printed (codes "Inside exception") ∷ complained ∷ [])
        (do _ ← timed net echo_thread_pool_endpoint Request.hello_world; return tt)
    act closed

  -- EchoService/echoservice-nb: opened within the `try`.
  unfoldable pub echo_nonblocking_main : C W (Unit {0})
  echo_nonblocking_main = do
    try_catch (complained ∷ []) (do
      open_transport net echo_nonblocking_endpoint
      _ ← timed net echo_nonblocking_endpoint Request.hello_world
      return tt)
    act closed

  abbrev run_on : C W (Unit {0})
  run_on w = (running, (w, []))

  -- `do { …; std::getline(std::cin, msg); } while (0 != msg.compare("q"));`
  unfoldable pub motd_loop : ℕ → Console → C W (Unit {0})
  unfolding getline
  motd_loop zero console = run_on
  motd_loop (suc fuel) console = do
    msg ← ask net motd_endpoint (Request.motd (codes "This is amazing"))
    act (printed msg)
    act (printed (codes "Enter to call motd, 'q' to quit"))
    let (msg', console') = getline console msg
    if same_text msg' (codes "q") then return tt else motd_loop fuel console'

  -- dump/tthreaded
  unfoldable pub motd_main : ℕ → Console → C W (Unit {0})
  unfolding motd_loop
  motd_main fuel console = do open_transport net motd_endpoint; motd_loop fuel console; act closed
