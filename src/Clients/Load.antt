-- ===== src/Clients/Load.antt =====
-- The clients that load a server: `run_workload_gen(seconds, reqps)`, which sends `reqps` requests in
-- each of `seconds` rounds over one connection, each of its threads on its own.
pub mod Runs
pub mod Endings
pub mod Endless
use apache_thrift_benchmarki.Prelude.{
  ℕ, zero, suc, ◌+◌, ◌≡◌, Bool, true, false, not, ◌&&◌, ◌==◌, List, [], ◌∷◌, ◌++◌, if◌then◌else◌,
}
use apache_thrift_benchmarki.Prelude.Int.{ℤ, pos, negsuc, pos_part, eq_ℤ}
use apache_thrift_benchmarki.Format.{Text, codes, to_string, same_text, show_ℤ}
use apache_thrift_benchmarki.Endpoints.{Endpoint, framed, buffered, json, compact}
use apache_thrift_benchmarki.Clients.{
  Request, Action, Network, Outcome, running, C, ◌>>=◌, ◌>>◌, return, act, repeat, open_transport,
  ask, logged, printed, shown_id, slept, closed,
}

-- What the clients print in a round.
abbrev pub sent_out : ℤ → ℕ → Text
sent_out reqps counter =
    codes "Sent out "
    ++ (show_ℤ reqps ++ (codes " requests for " ++ (to_string counter ++ codes " seconds")))

abbrev pub response_line : ℕ → ℕ → Text
response_line thread_no response =
    codes "The response for thread: "
    ++ (to_string thread_no ++ (codes " is " ++ to_string response))

module _ {W : Type 0} where
  abbrev run_on : {A : Type 0} → C W A
  run_on w = (running, (w, []))

  -- `while (true) { if (counter == seconds) break; …; counter++; }`; still running when the fuel ends.
  unfoldable pub rounds : ℕ → ℤ → (ℕ → C W (Unit {0})) → ℕ → C W (Unit {0})
  rounds zero seconds round counter = run_on
  rounds (suc fuel) seconds round counter =
      if eq_ℤ (pos counter) seconds
      then return tt
      else (round counter >> rounds fuel seconds round (counter + 1))

  -- The same without `counter++`.
  unfoldable pub rounds_uncounted : ℕ → ℤ → C W (Unit {0}) → ℕ → C W (Unit {0})
  rounds_uncounted zero seconds round counter = run_on
  rounds_uncounted (suc fuel) seconds round counter =
      if eq_ℤ (pos counter) seconds
      then return tt
      else (round >> rounds_uncounted fuel seconds round counter)

  -- A `for` loop of `n` passes that carries `response`.
  unfoldable pub repeat_with : ℕ → (ℕ → C W ℕ) → ℕ → C W ℕ
  repeat_with zero body response = return response
  repeat_with (suc n) body response = do response' ← body response; repeat_with n body response'

-- The endpoints of `run_workload_gen`: DSBUniqueIDService/threadpoolserver, nonblocking and
-- tthreadedserver, MLInfer/tthreaded, and EchoServerHindsight/tthreaded.
abbrev pub thread_pool_endpoint : Endpoint
thread_pool_endpoint = record {
  host = codes "localhost";
  port = 3068;
  framing = buffered;
  codec = compact;
}

abbrev pub nonblocking_endpoint : Endpoint
nonblocking_endpoint = record {
  host = codes "localhost";
  port = 3067;
  framing = framed;
  codec = compact;
}

abbrev pub threaded_endpoint : Endpoint
threaded_endpoint = record { host = codes "localhost"; port = 3046; framing = framed; codec = json }

abbrev pub compute_endpoint : Endpoint
compute_endpoint = record {
  host = codes "170.140.147.116";
  port = 3056;
  framing = framed;
  codec = json;
}

abbrev pub echo_endpoint : Endpoint
echo_endpoint = record { host = codes "localhost"; port = 3046; framing = framed; codec = json }

module _ {W : Type 0} (net : Network W) where
  -- A call and the log of the time that it took.
  abbrev pub timed : Endpoint → Request → C W Text
  timed endpoint request = do msg ← ask net endpoint request; act logged; return msg

  unfoldable pub thread_pool_run_workload_gen : ℕ → ℤ → ℤ → C W (Unit {0})
  unfolding rounds repeat
  thread_pool_run_workload_gen fuel seconds reqps = do
    open_transport net thread_pool_endpoint
    rounds fuel seconds
        (λ _. do
          repeat (pos_part reqps)
              (do _ ← timed thread_pool_endpoint (Request.compute_unique_id 100); return tt)
          act slept)
        0
    act closed

  unfoldable pub nonblocking_run_workload_gen : ℕ → ℤ → ℤ → C W (Unit {0})
  unfolding rounds repeat
  nonblocking_run_workload_gen fuel seconds reqps = do
    open_transport net nonblocking_endpoint
    rounds fuel seconds
        (λ counter. do
          repeat (pos_part reqps)
              (do _ ← timed nonblocking_endpoint (Request.compute_unique_id 100); return tt)
          act (printed (sent_out reqps counter))
          act slept)
        0
    act closed

  unfoldable pub threaded_run_workload_gen : ℕ → ℤ → ℤ → C W (Unit {0})
  unfolding rounds repeat_with
  threaded_run_workload_gen fuel seconds reqps = do
    open_transport net threaded_endpoint
    rounds fuel seconds
        (λ _. do
          response ←
              repeat_with (pos_part reqps)
                (λ response. do
                  msg ← timed threaded_endpoint (Request.compute_unique_id 100)
                  return (if same_text msg (codes "processed") then response else response + 1))
                0
          act slept
          act (printed (codes "The response value is: " ++ to_string response)))
        0
    act closed

  unfoldable pub compute_run_workload_gen : ℕ → ℤ → ℤ → ℕ → C W (Unit {0})
  unfolding rounds repeat_with
  compute_run_workload_gen fuel seconds reqps thread_no = do
    open_transport net compute_endpoint
    rounds fuel seconds
        (λ _. do
          _ ←
              repeat_with (pos_part reqps)
                (λ response. do
                  msg ← timed compute_endpoint (Request.compute_list 3 224 224)
                  act (printed (codes "The message is: " ++ msg))
                  let response' =
                      if same_text msg (codes "processed") then response + 1 else response
                  act (printed (response_line thread_no response'))
                  return response')
                0
          act slept)
        0
    act closed

  abbrev pub echo_call : C W (Unit {0})
  echo_call = do
    act (printed (codes "Inside for loop"))
    act shown_id
    _ ← ask net echo_endpoint Request.call
    return tt

  unfoldable pub echo_run_workload_gen : ℕ → ℤ → ℤ → C W (Unit {0})
  unfolding rounds_uncounted repeat
  echo_run_workload_gen fuel seconds reqps = do
    open_transport net echo_endpoint
    act (printed (codes "Opened transport"))
    rounds_uncounted fuel seconds (repeat (pos_part reqps) echo_call) 0
    act closed
