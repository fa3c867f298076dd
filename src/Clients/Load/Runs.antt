-- ===== src/Clients/Load/Runs.antt =====
-- What `run_workload_gen` does against a server that answers.
use apache_thrift_benchmarki.Prelude.{
  ℕ, ◌+◌, ◌<◌, ◌≡◌, refl, arith, Bool-cases, inl, inr, Bool, true, not, ◌&&◌, ◌==◌, List, [], ◌∷◌,
  ◌++◌, if◌then◌else◌,
}
use mathlib.Core.Path.{ap₂}
use apache_thrift_benchmarki.Prelude.Int.{ℤ, pos, pos_part}
use apache_thrift_benchmarki.Format.{Text, codes, to_string, same_text}
use apache_thrift_benchmarki.Endpoints.{Endpoint}
use apache_thrift_benchmarki.Clients.{
  Request, Action, Network, C, ◌>>=◌, ◌>>◌, return, act, open_transport, opened, called, logged,
  printed, slept, closed,
}
use apache_thrift_benchmarki.Clients.Load.{
  timed, sent_out, response_line, thread_pool_endpoint, nonblocking_endpoint, threaded_endpoint,
  compute_endpoint, thread_pool_run_workload_gen, nonblocking_run_workload_gen,
  threaded_run_workload_gen, compute_run_workload_gen,
}
use apache_thrift_benchmarki.Clients.Traces.{
  Gives, Gives-then, Gives-act, Gives-return, Gives-repeat, Gives-all, Gives-all_rounds, Gives-open,
  Serves, span, times,
}

-- A call that is logged.
abbrev pub timed_call : Request → List Action
timed_call request = called request ∷ logged ∷ []

abbrev pub unique_id : Request
unique_id = Request.compute_unique_id 100

abbrev pub ones_list : Request
ones_list = Request.compute_list 3 224 224

abbrev pub other_text : Text → Bool
other_text t = not (same_text t (codes "processed"))

abbrev pub any_text : Text → Bool
any_text t = true

abbrev pub is_processed : Text → Bool
is_processed t = same_text t (codes "processed")

-- The thread pool client sends `reqps` requests in each of `seconds` rounds.
abbrev pub thread_pool_round : ℤ → ℕ → List Action
thread_pool_round reqps counter = times (pos_part reqps) (timed_call unique_id) ++ slept ∷ []

abbrev pub nonblocking_round : ℤ → ℕ → List Action
nonblocking_round reqps counter =
    times (pos_part reqps) (timed_call unique_id) ++ printed (sent_out reqps counter) ∷ slept ∷ []

-- Every text counts that differs from what the variable held.
abbrev pub threaded_round : ℤ → ℕ → List Action
threaded_round reqps counter =
    span (λ _. timed_call unique_id) (pos_part reqps) 0
    ++ slept ∷ printed (codes "The response value is: " ++ to_string (pos_part reqps)) ∷ []

abbrev pub compute_call : ℕ → ℕ → List Action
compute_call thread_no response =
    timed_call ones_list
    ++ printed (codes "The message is: processed")
      ∷ printed (response_line thread_no (response + 1))
      ∷ []

abbrev pub compute_round : ℤ → ℕ → ℕ → List Action
compute_round reqps thread_no counter =
    span (compute_call thread_no) (pos_part reqps) 0 ++ slept ∷ []

counted :
    (t : Text) (response : ℕ)
    → other_text t ≡ true
    → (if same_text t (codes "processed") then response else response + 1) ≡ response + 1
counted t response other = elim (Bool-cases (same_text t (codes "processed"))) [
  | inl e ↦ cc
  | inr e ↦ rw e refl
]

same_head : (c d : ℕ) (rest : Bool) → (c == d && rest) ≡ true → c ≡ d
same_head c d rest e = ground arith

same_tail : (c d : ℕ) (rest : Bool) → (c == d && rest) ≡ true → rest ≡ true
same_tail c d rest e = ground arith

pub same_text-eq : (s t : Text) → same_text s t ≡ true → s ≡ t
unfolding same_text
same_text-eq [] [] e = refl
same_text-eq [] (d ∷ t) e = cc
same_text-eq (c ∷ s) [] e = cc
same_text-eq (c ∷ s) (d ∷ t) e =
    ap₂ ◌∷◌ (same_head c d (same_text s t) e) (same_text-eq s t (same_tail c d (same_text s t) e))

module _ {W : Type 0} (net : Network W) where
  pub Gives-timed :
      {endpoint : Endpoint} {request : Request} {ok : Text → Bool}
      → Serves net endpoint request ok
      → {B : Type 0} (f : Text → C W B) {b : B} {s : List Action}
      → ((t : Text) → ok t ≡ true → Gives (f t) b s)
      → Gives (timed net endpoint request >>= f) b (called request ∷ logged ∷ s)
  Gives-timed {endpoint} {request} serves f g w =
      let (t, e, admitted) = serves.answers w in
      let (w', e') = g t admitted (net.answer endpoint request w).1 in (w', rw e (rw e' refl))

  -- A connection that is opened, used and closed.
  Gives-connection :
      {endpoint : Endpoint} {request : Request} {ok : Text → Bool}
      → Serves net endpoint request ok
      → (m : C W (Unit {0})) {s : List Action} → Gives m tt s
      → Gives (open_transport net endpoint >> (m >> act closed)) tt (opened ∷ s ++ closed ∷ [])
  Gives-connection {endpoint} serves m g =
      Gives-then (open_transport net endpoint) (λ _. m >> act closed) (Gives-open net serves)
        (Gives-then m (λ _. act closed) g (Gives-act closed))

  -- Against a server that accepts the connection and answers every call, the load client of
  -- DSBUniqueIDService/threadpoolserver comes to its end for a number of seconds that is not
  -- negative and below the fuel: it opens, sends reqps calls (none if reqps is negative) in each
  -- second, and closes.
  pub thread_pool_run :
      (fuel seconds : ℕ) (reqps : ℤ)
      → seconds < fuel
      → Serves net thread_pool_endpoint unique_id any_text
      → Gives
          (thread_pool_run_workload_gen net fuel (pos seconds) reqps)
          tt
          (opened ∷ span (thread_pool_round reqps) seconds 0 ++ closed ∷ [])
  unfolding thread_pool_run_workload_gen
  thread_pool_run fuel seconds reqps h serves = Gives-connection serves _ (
      Gives-all_rounds _ (thread_pool_round reqps) h (λ _.
        Gives-then _ (λ _. act slept)
          (Gives-repeat (pos_part reqps) _
            (Gives-timed serves (λ _. return tt) (λ t _. Gives-return tt)))
          (Gives-act slept)))

  -- Against a server that accepts the connection and answers every call, the load client of
  -- DSBUniqueIDService/nonblocking comes to its end for a number of seconds that is not negative
  -- and below the fuel: it opens, sends reqps calls (none if reqps is negative) in each second,
  -- prints that and the number of seconds before, and closes.
  pub nonblocking_run :
      (fuel seconds : ℕ) (reqps : ℤ)
      → seconds < fuel
      → Serves net nonblocking_endpoint unique_id any_text
      → Gives
          (nonblocking_run_workload_gen net fuel (pos seconds) reqps)
          tt
          (opened ∷ span (nonblocking_round reqps) seconds 0 ++ closed ∷ [])
  unfolding nonblocking_run_workload_gen
  nonblocking_run fuel seconds reqps h serves = Gives-connection serves _ (
      Gives-all_rounds _ (nonblocking_round reqps) h (λ counter.
        Gives-then _ _
          (Gives-repeat (pos_part reqps) _
            (Gives-timed serves (λ _. return tt) (λ t _. Gives-return tt)))
          (Gives-then (act (printed (sent_out reqps counter))) (λ _. act slept)
            (Gives-act (printed (sent_out reqps counter))) (Gives-act slept))))

  -- Against a server that accepts the connection and answers every call with a text other than
  -- "processed", the load client of DSBUniqueIDService/tthreadedserver comes to its end for a
  -- number of seconds that is not negative and below the fuel: it opens, sends reqps calls (none if
  -- reqps is negative) in each second, prints that number as its response value, and closes.
  pub threaded_run :
      (fuel seconds : ℕ) (reqps : ℤ)
      → seconds < fuel
      → Serves net threaded_endpoint unique_id other_text
      → Gives
          (threaded_run_workload_gen net fuel (pos seconds) reqps)
          tt
          (opened ∷ span (threaded_round reqps) seconds 0 ++ closed ∷ [])
  unfolding threaded_run_workload_gen
  threaded_run fuel seconds reqps h serves = Gives-connection serves _ (
      Gives-all_rounds _ (threaded_round reqps) h (λ counter.
        Gives-then _ _
          (Gives-all (pos_part reqps) _ (λ _. timed_call unique_id)
            (λ response.
              Gives-timed serves _ (λ t other w. (w, rw (counted t response other) refl))))
          (Gives-then (act slept)
            (λ _. act (printed (codes "The response value is: " ++ to_string (pos_part reqps))))
            (Gives-act slept)
            (Gives-act (printed (codes "The response value is: " ++ to_string (pos_part reqps)))))))

  -- Against a server that accepts the connection and answers every call with "processed", the load
  -- client of MLInfer/tthreaded comes to its end for a number of seconds that is not negative and
  -- below the fuel: it opens, sends reqps lists (none if reqps is negative) in each second, counts
  -- each answer of the second once and prints the count after it, and closes.
  pub compute_run :
      (fuel seconds : ℕ) (reqps : ℤ) (thread_no : ℕ)
      → seconds < fuel
      → Serves net compute_endpoint ones_list is_processed
      → Gives
          (compute_run_workload_gen net fuel (pos seconds) reqps thread_no)
          tt
          (opened ∷ span (compute_round reqps thread_no) seconds 0 ++ closed ∷ [])
  unfolding compute_run_workload_gen
  compute_run fuel seconds reqps thread_no h serves = Gives-connection serves _ (
      Gives-all_rounds _ (compute_round reqps thread_no) h (λ counter.
        Gives-then _ (λ _. act slept)
          (Gives-all (pos_part reqps) _ (compute_call thread_no) (λ response.
            Gives-timed serves _ (λ t processed w.
              (w, rw processed (rw (same_text-eq t (codes "processed") processed) refl)))))
          (Gives-act slept)))
