-- ===== src/Tests/Clients.antt =====
-- Runs of the clients over a small network, and the theorems at it.
use apache_thrift_benchmarki.Prelude.{
  ℕ, ◌+◌, ◌≡◌, refl, arith, Bool, true, false, [], ◌∷◌, ◌++◌, map, none, some,
}
use apache_thrift_benchmarki.Prelude.Int.{pos, negsuc}
use apache_thrift_benchmarki.Format.{Text, codes, same_text, to_string, strip, digits, digit_char}
use apache_thrift_benchmarki.Endpoints.{Endpoint}
use apache_thrift_benchmarki.Clients.{
  Request, Network, done, uncaught, opened, called, logged, slept, closed, repeat,
}
use apache_thrift_benchmarki.Clients.Threads.{compute_load_main}
use apache_thrift_benchmarki.Clients.Traces.{Serves, span, Gives}
use apache_thrift_benchmarki.Clients.Load.{
  threaded_endpoint, rounds, thread_pool_run_workload_gen, nonblocking_run_workload_gen,
  threaded_run_workload_gen, compute_run_workload_gen, echo_run_workload_gen,
}
use apache_thrift_benchmarki.Clients.Load.Runs.{
  unique_id, any_text, is_processed, other_text, threaded_round, threaded_run,
}
use apache_thrift_benchmarki.Clients.Load.Endings.{ClosesAtEnd, run_workload_gen_closes}
use apache_thrift_benchmarki.Clients.Proxies.{
  hello_on_request, compute_nonblocking_on_request, compute_thread_pool_on_request,
}
use apache_thrift_benchmarki.Clients.Proxies.Requests.{Ended, hello_block, compute_block}
use apache_thrift_benchmarki.Clients.Proxies.Kept.{StaysOpen, kept_connections}

-- Whether a transport is open, and how many calls were answered.
abbrev State : Type 0
State = Bool × ℕ

-- Every call is answered with the same text.
abbrev answering : Text → Network State
answering text = record {
  open_at = λ endpoint s. (true, (true, s.1));
  is_open = λ endpoint s. s.0;
  answer = λ endpoint request s. (some text, (s.0, s.1 + 1));
}

-- No connection can be opened.
abbrev unplugged : Network State
unplugged = record {
  open_at = λ endpoint s. (false, s);
  is_open = λ endpoint s. false;
  answer = λ endpoint request s. (none, s);
}

Serves-any :
    (text : Text) (endpoint : Endpoint) (request : Request)
    → Serves (answering text) endpoint request any_text
Serves-any text endpoint request = record { opens = λ w. refl; answers = λ w. (text, refl, refl) }

Serves-7 :
    (endpoint : Endpoint) (request : Request)
    → Serves (answering (codes "7")) endpoint request other_text
unfolding same_text
Serves-7 endpoint request = record { opens = λ w. refl; answers = λ w. (codes "7", refl, refl) }

Serves-processed :
    (endpoint : Endpoint) (request : Request)
    → Serves (answering (codes "processed")) endpoint request is_processed
unfolding same_text
Serves-processed endpoint request = record {
  opens = λ w. refl;
  answers = λ w. (codes "processed", refl, refl);
}

two_seconds : thread_pool_run_workload_gen (answering (codes "7")) 3 (pos 2) (pos 2) (false, 0) ≡ (
  done tt,
  (
    (true, 4),
    opened
        ∷ called unique_id
        ∷ logged
        ∷ called unique_id
        ∷ logged
        ∷ slept
        ∷ called unique_id
        ∷ logged
        ∷ called unique_id
        ∷ logged
        ∷ slept
        ∷ closed
        ∷ [],
  ),
)
unfolding thread_pool_run_workload_gen rounds repeat
two_seconds = refl

not_opened :
    thread_pool_run_workload_gen unplugged 3 (pos 2) (pos 2) (false, 0)
    ≡ (uncaught, ((false, 0), []))
unfolding thread_pool_run_workload_gen rounds repeat
not_opened = refl

threaded_run_example :
    Gives
      (threaded_run_workload_gen (answering (codes "7")) 3 (pos 2) (pos 5))
      tt
      (opened ∷ span (threaded_round (pos 5)) 2 0 ++ closed ∷ [])
threaded_run_example =
    threaded_run (answering (codes "7")) 3 2 (pos 5) (omega arith)
      (Serves-7 threaded_endpoint unique_id)

run_workload_gen_closes_example :
    ClosesAtEnd (thread_pool_run_workload_gen unplugged 3 (pos 2) (pos 5))
    × ClosesAtEnd (nonblocking_run_workload_gen unplugged 3 (pos 2) (pos 5))
    × ClosesAtEnd (threaded_run_workload_gen unplugged 3 (pos 2) (pos 5))
    × ClosesAtEnd (compute_run_workload_gen unplugged 3 (pos 2) (pos 5) 1)
    × ClosesAtEnd (echo_run_workload_gen unplugged 3 (pos 2) (pos 5))
run_workload_gen_closes_example = run_workload_gen_closes unplugged 3 (pos 2) (pos 5) 1

stays_open :
    (text : Text) (endpoint : Endpoint) (request : Request)
    → StaysOpen (answering text) endpoint request
stays_open text endpoint request = record {
  after_open = λ w. refl;
  after_call = λ w is_open. is_open;
}

kept_connections_example :
    Ended (false, 0) (hello_on_request (answering (codes "Hello"))) 3 (opened ∷ []) hello_block
    × Ended
        (false, 0)
        (compute_nonblocking_on_request (answering (codes "Hello")))
        3
        (opened ∷ [])
        compute_block
    × Ended
        (false, 0)
        (compute_thread_pool_on_request (answering (codes "Hello")))
        3
        (opened ∷ [])
        compute_block
kept_connections_example =
    kept_connections (answering (codes "Hello")) 2 (false, 0) (Serves-any (codes "Hello") _ _)
      (Serves-any (codes "Hello") _ _) (Serves-any (codes "Hello") _ _)
      (stays_open (codes "Hello") _ _) (stays_open (codes "Hello") _ _)
      (stays_open (codes "Hello") _ _)

two_threads :
    map (λ started. started.0) (compute_load_main (answering []) 9 (pos 1) (pos 1) (pos 2))
    ≡ codes "Spawned Client 1" ∷ codes "Spawned Client 2" ∷ []
unfolding compute_load_main to_string strip digits digit_char
two_threads = refl

no_threads : compute_load_main (answering []) 9 (pos 1) (pos 1) (negsuc 4) ≡ []
unfolding compute_load_main
no_threads = refl
