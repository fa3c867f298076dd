-- ===== src/Clients/Threads.antt =====
-- The `main` functions of the load clients: the threads that they start, in order, each with the line
-- that is printed before it. The arguments are the numbers that `atoi` reads; `main` joins all threads,
-- which run on their own.
use apache_thrift_benchmarki.Prelude.{ℕ, zero, suc, ◌+◌, List, [], ◌∷◌, ◌++◌}
use apache_thrift_benchmarki.Prelude.Int.{ℤ, pos_part}
use apache_thrift_benchmarki.Format.{Text, codes, to_string}
use apache_thrift_benchmarki.Clients.{Network, C}
use apache_thrift_benchmarki.Clients.Load.{
  thread_pool_run_workload_gen, nonblocking_run_workload_gen, threaded_run_workload_gen,
  compute_run_workload_gen, echo_run_workload_gen,
}

module _ {W : Type 0} where
  -- `for (int i = …; i < no_of_clients; i++) { std::cout << label << i + 1; threads.push_back(…); }`
  abbrev pub spawn : ℕ → ℕ → Text → (ℕ → C W (Unit {0})) → List (Text × C W (Unit {0}))
  spawn zero i label thread = []
  spawn (suc n) i label thread =
      (label ++ to_string (i + 1), thread (i + 1)) ∷ spawn n (i + 1) label thread

module _ {W : Type 0} (net : Network W) where
  unfoldable pub thread_pool_load_main : ℕ → ℤ → ℤ → ℤ → List (Text × C W (Unit {0}))
  thread_pool_load_main fuel seconds reqps no_of_clients =
      spawn (pos_part no_of_clients) 0 (codes "Spawned Client: ")
        (λ _. thread_pool_run_workload_gen net fuel seconds reqps)

  unfoldable pub nonblocking_load_main : ℕ → ℤ → ℤ → ℤ → List (Text × C W (Unit {0}))
  nonblocking_load_main fuel seconds reqps no_of_clients =
      spawn (pos_part no_of_clients) 0 (codes "Spawned Client: ")
        (λ _. nonblocking_run_workload_gen net fuel seconds reqps)

  unfoldable pub threaded_load_main : ℕ → ℤ → ℤ → ℤ → List (Text × C W (Unit {0}))
  threaded_load_main fuel seconds reqps no_of_clients =
      spawn (pos_part no_of_clients) 0 (codes "Spawned Client: ")
        (λ _. threaded_run_workload_gen net fuel seconds reqps)

  unfoldable pub echo_load_main : ℕ → ℤ → ℤ → ℤ → List (Text × C W (Unit {0}))
  echo_load_main fuel seconds reqps no_of_clients =
      spawn (pos_part no_of_clients) 0 (codes "Spawned Client: ")
        (λ _. echo_run_workload_gen net fuel seconds reqps)

  -- Here a thread is told its number.
  unfoldable pub compute_load_main : ℕ → ℤ → ℤ → ℤ → List (Text × C W (Unit {0}))
  compute_load_main fuel seconds reqps no_of_clients =
      spawn (pos_part no_of_clients) 0 (codes "Spawned Client ")
        (λ thread_no. compute_run_workload_gen net fuel seconds reqps thread_no)
