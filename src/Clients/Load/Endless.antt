-- ===== src/Clients/Load/Endless.antt =====
-- The runs of `run_workload_gen` that never end.
use apache_thrift_benchmarki.Prelude.{ℕ, zero, suc, ◌+◌, ◌≡◌, ◌≢◌, refl, arith, false, List}
use apache_thrift_benchmarki.Prelude.Int.{ℤ, pos, negsuc, pos_part, eq_ℤ}
use apache_thrift_benchmarki.Format.{codes}
use apache_thrift_benchmarki.Endpoints.{Endpoint}
use apache_thrift_benchmarki.Clients.{
  Action, Network, Outcome, done, uncaught, running, C, and_then, ◌>>=◌, ◌>>◌, act, repeat,
  open_transport, printed, closed,
}
use apache_thrift_benchmarki.Clients.Load.{
  rounds, rounds_uncounted, thread_pool_endpoint, nonblocking_endpoint, threaded_endpoint,
  compute_endpoint, echo_endpoint, echo_call, thread_pool_run_workload_gen,
  nonblocking_run_workload_gen, threaded_run_workload_gen, compute_run_workload_gen,
  echo_run_workload_gen,
}
use apache_thrift_benchmarki.Clients.Load.Endings.{ended}

negative_never : (c n : ℕ) → eq_ℤ (pos c) (negsuc n) ≡ false
negative_never c n = ground arith

not_at_zero : (seconds : ℤ) → seconds ≢ pos 0 → eq_ℤ (pos 0) seconds ≡ false
not_at_zero (pos zero) h = absurd (h refl)
not_at_zero (pos (suc n)) h = ground arith
not_at_zero (negsuc n) h = ground arith

module _ {W : Type 0} where
  -- Never at its end.
  pub record Never {A : Type 0} (m : C W A) : Type 0 where
    pub at : (w : W) → ended (m w).0 ≡ 0

  and_then-never_first :
      {A B : Type 0} (r : Outcome A × (W × List Action)) (f : A → C W B)
      → ended r.0 ≡ 0
      → ended (and_then r f).0 ≡ 0
  and_then-never_first (done a, (w, s)) f h = absurd (omega (arith, h))
  and_then-never_first (uncaught, (w, s)) f h = refl
  and_then-never_first (running, (w, s)) f h = refl

  and_then-Never :
      {A B : Type 0} (r : Outcome A × (W × List Action)) (f : A → C W B)
      → ((a : A) → Never (f a))
      → ended (and_then r f).0 ≡ 0
  and_then-Never (done a, (w, s)) f k = (k a).at w
  and_then-Never (uncaught, (w, s)) f k = refl
  and_then-Never (running, (w, s)) f k = refl

  Never-rounds :
      (fuel n : ℕ) (round : ℕ → C W (Unit {0})) (c : ℕ) → Never (rounds fuel (negsuc n) round c)
  unfolding rounds
  Never-rounds zero n round c = record { at = λ w. refl }
  Never-rounds (suc fuel) n round c = record {
    at = λ w.
        rw (negative_never c n, rounds)
          (and_then-Never (round c w) (λ _. rounds fuel (negsuc n) round (c + 1))
            (λ _. Never-rounds fuel n round (c + 1)));
  }

  Never-rounds_uncounted :
      (fuel : ℕ) (seconds : ℤ) (round : C W (Unit {0})) (c : ℕ)
      → eq_ℤ (pos c) seconds ≡ false
      → Never (rounds_uncounted fuel seconds round c)
  unfolding rounds_uncounted
  Never-rounds_uncounted zero seconds round c e = record { at = λ w. refl }
  Never-rounds_uncounted (suc fuel) seconds round c e = record {
    at = λ w.
        rw (e, rounds_uncounted)
          (and_then-Never (round w) (λ _. rounds_uncounted fuel seconds round c)
            (λ _. Never-rounds_uncounted fuel seconds round c e));
  }

  -- A connection over which a loop runs that never ends.
  pub Never-then :
      {A B : Type 0} (m : C W A) (f : A → C W B) → ((a : A) → Never (f a)) → Never (m >>= f)
  Never-then m f k = record { at = λ w. and_then-Never (m w) f k }

  pub Never-first : {A B : Type 0} (m : C W A) (f : A → C W B) → Never m → Never (m >>= f)
  Never-first m f h = record { at = λ w. and_then-never_first (m w) f (h.at w) }

module _ {W : Type 0} (net : Network W) where
  -- A connection over which a loop runs that never ends.
  Never-connection :
      (endpoint : Endpoint) (loop : C W (Unit {0}))
      → Never loop
      → Never (open_transport net endpoint >> (loop >> act closed))
  Never-connection endpoint loop h =
      Never-then (open_transport net endpoint) (λ _. loop >> act closed)
        (λ _. Never-first loop (λ _. act closed) h)

  -- Whatever the network does, the load clients of DSBUniqueIDService and MLInfer never come to
  -- their end for a negative number of seconds, however many rounds are allowed.
  pub run_workload_gen-Never :
      (fuel n : ℕ) (reqps : ℤ) (thread_no : ℕ)
      → Never (thread_pool_run_workload_gen net fuel (negsuc n) reqps)
        × Never (nonblocking_run_workload_gen net fuel (negsuc n) reqps)
        × Never (threaded_run_workload_gen net fuel (negsuc n) reqps)
        × Never (compute_run_workload_gen net fuel (negsuc n) reqps thread_no)
  unfolding thread_pool_run_workload_gen nonblocking_run_workload_gen threaded_run_workload_gen
      compute_run_workload_gen
  run_workload_gen-Never fuel n reqps thread_no = (
    Never-connection thread_pool_endpoint _ (Never-rounds fuel n _ 0),
    Never-connection nonblocking_endpoint _ (Never-rounds fuel n _ 0),
    Never-connection threaded_endpoint _ (Never-rounds fuel n _ 0),
    Never-connection compute_endpoint _ (Never-rounds fuel n _ 0),
  )

  -- Whatever the network does, the client of EchoServerHindsight never comes to its end for a
  -- number of seconds other than 0: its counter is not incremented.
  pub echo_run_workload_gen-Never :
      (fuel : ℕ) (seconds reqps : ℤ)
      → seconds ≢ pos 0
      → Never (echo_run_workload_gen net fuel seconds reqps)
  unfolding echo_run_workload_gen
  echo_run_workload_gen-Never fuel seconds reqps h =
      Never-then (open_transport net echo_endpoint) _ (λ _.
        Never-then (act (printed (codes "Opened transport"))) _ (λ _.
          Never-first _ (λ _. act closed)
            (Never-rounds_uncounted fuel seconds (repeat (pos_part reqps) (echo_call net)) 0
              (not_at_zero seconds h))))
