-- ===== src/Clients/Load/Endings.antt =====
-- How `run_workload_gen` ends, whatever the network does.
use apache_thrift_benchmarki.Prelude.{
  ℕ, zero, suc, ◌+◌, ◌≡◌, refl, arith, inl, inr, Bool-cases, Bool, true, false, List, [], ◌∷◌, ◌++◌,
  Option, none, some,
}
use apache_thrift_benchmarki.Prelude.Int.{ℤ, pos, pos_part, eq_ℤ}
use apache_thrift_benchmarki.Format.{Text, codes}
use apache_thrift_benchmarki.Endpoints.{Endpoint}
use apache_thrift_benchmarki.Clients.{
  Request, Action, Network, Outcome, done, uncaught, running, C, and_then, ◌>>=◌, ◌>>◌, return, act,
  repeat, open_transport, ask, opened_or, replied, opened, called, logged, printed, responded,
  shown_id, slept, complained, closed,
}
use apache_thrift_benchmarki.Clients.Load.{
  rounds, rounds_uncounted, repeat_with, timed, thread_pool_endpoint, nonblocking_endpoint,
  threaded_endpoint, compute_endpoint, echo_endpoint, thread_pool_run_workload_gen,
  nonblocking_run_workload_gen, threaded_run_workload_gen, compute_run_workload_gen,
  echo_run_workload_gen,
}

-- How often a transport is closed.
abbrev pub closes : List Action → ℕ
closes [] = 0
closes (closed ∷ actions) = suc (closes actions)
closes (opened ∷ actions) = closes actions
closes (called request ∷ actions) = closes actions
closes (logged ∷ actions) = closes actions
closes (printed text ∷ actions) = closes actions
closes (responded text ∷ actions) = closes actions
closes (shown_id ∷ actions) = closes actions
closes (slept ∷ actions) = closes actions
closes (complained ∷ actions) = closes actions

closes-append : (s t : List Action) → closes (s ++ t) ≡ closes s + closes t
closes-append [] t = omega arith
closes-append (closed ∷ s) t = omega (arith, closes-append s t)
closes-append (opened ∷ s) t = closes-append s t
closes-append (called request ∷ s) t = closes-append s t
closes-append (logged ∷ s) t = closes-append s t
closes-append (printed text ∷ s) t = closes-append s t
closes-append (responded text ∷ s) t = closes-append s t
closes-append (shown_id ∷ s) t = closes-append s t
closes-append (slept ∷ s) t = closes-append s t
closes-append (complained ∷ s) t = closes-append s t

abbrev pub ended : {A : Type 0} → Outcome A → ℕ
ended (done a) = 1
ended uncaught = 0
ended running = 0

module _ {W : Type 0} where
  -- The part closes no transport.
  record Quiet {A : Type 0} (m : C W A) : Type 0 where
    pub at : (w : W) → closes (m w).1.1 ≡ 0

  and_then-Quiet :
      {A B : Type 0} (r : Outcome A × (W × List Action)) (f : A → C W B)
      → closes r.1.1 ≡ 0
      → ((a : A) → Quiet (f a))
      → closes (and_then r f).1.1 ≡ 0
  and_then-Quiet (done a, (w, s)) f h k = omega (arith, closes-append s (f a w).1.1, (k a).at w)
  and_then-Quiet (uncaught, (w, s)) f h k = h
  and_then-Quiet (running, (w, s)) f h k = h

  Quiet-then :
      {A B : Type 0} (m : C W A) (f : A → C W B)
      → Quiet m
      → ((a : A) → Quiet (f a))
      → Quiet (m >>= f)
  Quiet-then m f h k = record { at = λ w. and_then-Quiet (m w) f (h.at w) k }

  Quiet-repeat : (n : ℕ) (body : C W (Unit {0})) → Quiet body → Quiet (repeat n body)
  unfolding repeat
  Quiet-repeat zero body h = record { at = λ w. refl }
  Quiet-repeat (suc n) body h = Quiet-then body (λ _. repeat n body) h (λ _. Quiet-repeat n body h)

  Quiet-repeat_with :
      (n : ℕ) (body : ℕ → C W ℕ) (c : ℕ) → ((c : ℕ) → Quiet (body c)) → Quiet (repeat_with n body c)
  unfolding repeat_with
  Quiet-repeat_with zero body c h = record { at = λ w. refl }
  Quiet-repeat_with (suc n) body c h =
      Quiet-then (body c) (repeat_with n body) (h c) (λ c'. Quiet-repeat_with n body c' h)

  Quiet-rounds :
      (fuel : ℕ) (seconds : ℤ) (round : ℕ → C W (Unit {0})) (c : ℕ)
      → ((c : ℕ) → Quiet (round c))
      → Quiet (rounds fuel seconds round c)
  unfolding rounds
  Quiet-rounds zero seconds round c h = record { at = λ w. refl }
  Quiet-rounds (suc fuel) seconds round c h = elim (Bool-cases (eq_ℤ (pos c) seconds)) [
    | inl e ↦ record { at = λ w. rw (e, rounds) refl }
    | inr e ↦ record {
      at = λ w.
          rw (e, rounds)
            ((Quiet-then (round c) (λ _. rounds fuel seconds round (c + 1)) (h c)
                (λ _. Quiet-rounds fuel seconds round (c + 1) h)).at
              w);
    }
  ]

  Quiet-rounds_uncounted :
      (fuel : ℕ) (seconds : ℤ) (round : C W (Unit {0})) (c : ℕ)
      → Quiet round
      → Quiet (rounds_uncounted fuel seconds round c)
  unfolding rounds_uncounted
  Quiet-rounds_uncounted zero seconds round c h = record { at = λ w. refl }
  Quiet-rounds_uncounted (suc fuel) seconds round c h = elim (Bool-cases (eq_ℤ (pos c) seconds)) [
    | inl e ↦ record { at = λ w. rw (e, rounds_uncounted) refl }
    | inr e ↦ record {
      at = λ w.
          rw (e, rounds_uncounted)
            ((Quiet-then round (λ _. rounds_uncounted fuel seconds round c) h
                (λ _. Quiet-rounds_uncounted fuel seconds round c h)).at
              w);
    }
  ]

  -- The part closes one transport if it comes to its end, and none otherwise.
  pub record ClosesAtEnd {A : Type 0} (m : C W A) : Type 0 where
    pub at : (w : W) → closes (m w).1.1 ≡ ended (m w).0

  and_then-closes :
      {A B : Type 0} (r : Outcome A × (W × List Action)) (f : A → C W B)
      → closes r.1.1 ≡ 0
      → ((a : A) → ClosesAtEnd (f a))
      → closes (and_then r f).1.1 ≡ ended (and_then r f).0
  and_then-closes (done a, (w, s)) f h k = omega (arith, closes-append s (f a w).1.1, (k a).at w)
  and_then-closes (uncaught, (w, s)) f h k = h
  and_then-closes (running, (w, s)) f h k = h

  closes_then :
      {A B : Type 0} (m : C W A) (f : A → C W B)
      → Quiet m
      → ((a : A) → ClosesAtEnd (f a))
      → ClosesAtEnd (m >>= f)
  closes_then m f h k = record { at = λ w. and_then-closes (m w) f (h.at w) k }

module _ {W : Type 0} (net : Network W) where
  opened_or-quiet : (r : Bool × W) → closes (opened_or net r).1.1 ≡ 0
  opened_or-quiet (true, w) = refl
  opened_or-quiet (false, w) = refl

  replied-quiet : (request : Request) (r : Option Text × W) → closes (replied net request r).1.1 ≡ 0
  replied-quiet request (some t, w) = refl
  replied-quiet request (none, w) = refl

  Quiet-open : (endpoint : Endpoint) → Quiet (open_transport net endpoint)
  Quiet-open endpoint = record { at = λ w. opened_or-quiet (net.open_at endpoint w) }

  Quiet-ask : (endpoint : Endpoint) (request : Request) → Quiet (ask net endpoint request)
  Quiet-ask endpoint request = record {
    at = λ w. replied-quiet request (net.answer endpoint request w);
  }

  Quiet-timed : (endpoint : Endpoint) (request : Request) → Quiet (timed net endpoint request)
  Quiet-timed endpoint request =
      Quiet-then (ask net endpoint request) _ (Quiet-ask endpoint request)
        (λ msg. record { at = λ w. refl })

  connection_closes :
      (endpoint : Endpoint) (m : C W (Unit {0}))
      → Quiet m
      → ClosesAtEnd (open_transport net endpoint >> (m >> act closed))
  connection_closes endpoint m h =
      closes_then (open_transport net endpoint) (λ _. m >> act closed) (Quiet-open endpoint)
        (λ _. closes_then m (λ _. act closed) h (λ _. record { at = λ w. refl }))

  Quiet-id_calls :
      (endpoint : Endpoint) (n : ℕ)
      → Quiet (repeat n (timed net endpoint (Request.compute_unique_id 100) >>= λ _. return tt))
  Quiet-id_calls endpoint n =
      Quiet-repeat n _
        (Quiet-then _ (λ _. return tt) (Quiet-timed endpoint _) (λ _. record { at = λ w. refl }))

  -- Whatever the network does, each of the five load clients closes its transport once if it comes
  -- to its end, and never otherwise: after an exception the transport is left as it is.
  pub run_workload_gen_closes :
      (fuel : ℕ) (seconds reqps : ℤ) (thread_no : ℕ)
      → ClosesAtEnd (thread_pool_run_workload_gen net fuel seconds reqps)
        × ClosesAtEnd (nonblocking_run_workload_gen net fuel seconds reqps)
        × ClosesAtEnd (threaded_run_workload_gen net fuel seconds reqps)
        × ClosesAtEnd (compute_run_workload_gen net fuel seconds reqps thread_no)
        × ClosesAtEnd (echo_run_workload_gen net fuel seconds reqps)
  unfolding thread_pool_run_workload_gen nonblocking_run_workload_gen threaded_run_workload_gen
      compute_run_workload_gen echo_run_workload_gen
  run_workload_gen_closes fuel seconds reqps thread_no = (
    connection_closes thread_pool_endpoint _ (
        Quiet-rounds fuel seconds _ 0 (λ _.
          Quiet-then _ (λ _. act slept) (Quiet-id_calls thread_pool_endpoint (pos_part reqps))
            (λ _. record { at = λ w. refl }))),
    connection_closes nonblocking_endpoint _ (
        Quiet-rounds fuel seconds _ 0 (λ _.
          Quiet-then _ _ (Quiet-id_calls nonblocking_endpoint (pos_part reqps))
            (λ _. record { at = λ w. refl }))),
    connection_closes threaded_endpoint _ (
        Quiet-rounds fuel seconds _ 0 (λ _.
          Quiet-then _ _
            (Quiet-repeat_with (pos_part reqps) _ 0 (λ _.
              Quiet-then _ _ (Quiet-timed threaded_endpoint _) (λ _. record { at = λ w. refl })))
            (λ _. record { at = λ w. refl }))),
    connection_closes compute_endpoint _ (
        Quiet-rounds fuel seconds _ 0 (λ _.
          Quiet-then _ (λ _. act slept)
            (Quiet-repeat_with (pos_part reqps) _ 0 (λ _.
              Quiet-then _ _ (Quiet-timed compute_endpoint _) (λ _. record { at = λ w. refl })))
            (λ _. record { at = λ w. refl }))),
    closes_then (open_transport net echo_endpoint) _ (Quiet-open echo_endpoint) (λ _.
        closes_then (act (printed (codes "Opened transport"))) _ (record { at = λ w. refl })
          (λ _.
            closes_then _ (λ _. act closed)
              (Quiet-rounds_uncounted fuel seconds _ 0 (
                Quiet-repeat (pos_part reqps) _ (
                  Quiet-then (act (printed (codes "Inside for loop"))) _ (record { at = λ w. refl })
                    (λ _.
                      Quiet-then (act shown_id) _ (record { at = λ w. refl })
                        (λ _.
                          Quiet-then _ (λ _. return tt) (Quiet-ask echo_endpoint Request.call)
                            (λ _. record { at = λ w. refl }))))))
              (λ _. record { at = λ w. refl }))),
  )
