-- ===== src/Rpc/Compute/Session.antt =====
-- The calls of one connection to MLInfer's threaded server: the handlers of Inference behind the stubs.
use apache_thrift_benchmarki.Prelude.{
  ℕ, ◌<◌, ◌≤◌, ◌≡◌, ap, ◌∙◌, arith, List, [], ◌∷◌, ◌++◌, some, length, take,
}
use apache_thrift_benchmarki.Prelude.Int.{ℤ}
use apache_thrift_benchmarki.Format.{Text, codes}
use apache_thrift_benchmarki.Inference
use apache_thrift_benchmarki.Inference.{Torch, loaded, run_model, threaded_compute_list}
use apache_thrift_benchmarki.Inference.Copy.{Tall}
use apache_thrift_benchmarki.Inference.Answer.{compute_list_lem}
use apache_thrift_benchmarki.Inference.Values.{
  Line, print_slice, show_output, infer_ones, matrix_multiplication, threaded_computed_value,
}
use apache_thrift_benchmarki.Inference.Values.Ones.{ending-and_print}
use apache_thrift_benchmarki.Rpc.Wire.{M, ◌>>=◌, ◌>>◌, return, returned, Protocol, Token}
use apache_thrift_benchmarki.Rpc.Wire.Ends.{Ends, chain, return_ends}
use apache_thrift_benchmarki.Rpc.Call.Processing.{Connected, no_handler, exchange}
use apache_thrift_benchmarki.Rpc.Compute.{dispatch_call}
use apache_thrift_benchmarki.Rpc.Compute.ComputedValue.{send_computed_value, recv_computed_value}
use apache_thrift_benchmarki.Rpc.Compute.ComputedValue.Trip.{computed_value_arrives}
use apache_thrift_benchmarki.Rpc.Compute.ComputeList.{send_compute_list, recv_compute_list}
use apache_thrift_benchmarki.Rpc.Compute.ComputeList.Trip.{Fits, inference_arrives}

pub data ComputeRequest (D : Type 0) : Type 0 where
  list_request : List (List (List D)) → ComputeRequest D
  value_request : ℤ → ℤ → ComputeRequest D

module _ {W D : Type 0} (request response : Protocol W D) (fuel : ℕ)
    (computed : ℤ → ℤ → M W (Unit {0})) (inferred : List (List (List D)) → M W Text) where
  -- The texts of the calls of compute_list.
  unfoldable pub session : List (ComputeRequest D) → M W (List Text)
  session [] = return []
  session (list_request values ∷ requests) = do
    answer ←
        exchange request (send_compute_list request values)
          (dispatch_call request response no_handler fuel computed inferred)
          (recv_compute_list response fuel)
    answers ← session requests
    return (answer ∷ answers)
  session (value_request row column ∷ requests) = do
    exchange request (send_computed_value request row column)
        (dispatch_call request response no_handler fuel computed inferred)
        (recv_computed_value response fuel)
    session requests

module _ (torch : Torch) where
  open torch use {Double, Float, Tensor, forward, sliced}

  -- The handler's methods do what the threaded server does; the state is what `computed_value` printed.
  pub record IsCompute {W : Type 0}
      (Holds : List Line → List (Token Double) → List (Token Double) → W → Type 0)
      (computed : ℤ → ℤ → M W (Unit {0})) (inferred : List (List (List Double)) → M W Text)
      : Type 0 where
    pub infers :
        (printed : List Line) (values : List (List (List Double))) (answer : Text)
        → threaded_compute_list torch values ≡ Inference.returned answer
        → Ends (Holds printed [] []) (inferred values) (returned answer) (Holds printed [] [])
    pub computes :
        (printed : List Line) (row column : ℤ)
        → (threaded_computed_value torch row column).1 ≡ some tt
        → Ends
            (Holds printed [] [])
            (computed row column)
            (returned tt)
            (Holds (printed ++ (threaded_computed_value torch row column).0) [] [])

  -- Every list has at least the size that the handler reads, and lengths that can be written.
  abbrev pub Large : List (ComputeRequest Double) → Type 0
  Large [] = Unit {0}
  Large (list_request values ∷ requests) =
      (3 ≤ length values) × Tall torch 224 224 (take 3 values) × Fits values × Large requests
  Large (value_request row column ∷ requests) = Large requests

  abbrev pub answers_to : List (ComputeRequest Double) → List Text
  answers_to [] = []
  answers_to (list_request values ∷ requests) = codes "processed" ∷ answers_to requests
  answers_to (value_request row column ∷ requests) = answers_to requests

  abbrev pub prints : List Line → List (ComputeRequest Double) → List Line
  prints printed [] = printed
  prints printed (list_request values ∷ requests) = prints printed requests
  prints printed (value_request row column ∷ requests) =
      prints (printed ++ (threaded_computed_value torch row column).0) requests

  module _
      (works : (tensor : List Float)
        → (output : Tensor) × (slice : Text) × (forward (loaded torch) tensor ≡ some output)
          × (sliced output ≡ some slice)) where
    list_returns :
        (values : List (List (List Double)))
        → 3 ≤ length values
        → Tall torch 224 224 (take 3 values)
        → threaded_compute_list torch values ≡ Inference.returned (codes "processed")
    list_returns values enough tall =
        (compute_list_lem torch values enough tall).0
        ∙ ap (run_model torch (codes "processed")) (works _).2

    value_returns : (row column : ℤ) → (threaded_computed_value torch row column).1 ≡ some tt
    unfolding threaded_computed_value matrix_multiplication infer_ones
    value_returns row column =
        ending-and_print _ (codes "Finished computation")
        ∙ ap (λ output. (show_output torch (codes "ok") output).1) (works _).2
        ∙ ap (λ slice. (print_slice torch (codes "ok") slice).1) (works _).3

    module _ {W : Type 0} {request response : Protocol W Double}
        {Holds : List Line → List (Token Double) → List (Token Double) → W → Type 0}
        (connected : Connected request response Holds) (fuel : ℕ) (enough : 2 < fuel)
        {computed : ℤ → ℤ → M W (Unit {0})} {inferred : List (List (List Double)) → M W Text}
        (is_handler : IsCompute Holds computed inferred) where
      -- Over a connection that carries what is written to it in order, as Thrift documents of its
      -- protocols, to a handler that does what the methods of the threaded server of MLInfer do,
      -- with fuel for three rounds, calls of compute_list and computed_value one after the other in
      -- any order all return, where the model that is loaded returns on every tensor an output that
      -- can be sliced and each list has at least the 3 by 224 by 224 numbers that the handler reads
      -- and lengths below 2 ^ 32: compute_list gives "processed", and what computed_value prints
      -- has been printed in the order of the calls.
      pub session-answers :
          (requests : List (ComputeRequest Double)) (printed : List Line)
          → Large requests
          → Ends
              (Holds printed [] [])
              (session request response fuel computed inferred requests)
              (returned (answers_to requests))
              (Holds (prints printed requests) [] [])
      unfolding session
      session-answers [] printed large = return_ends []
      session-answers (list_request values ∷ requests) printed large =
          chain _
            (inference_arrives connected fuel (omega arith) computed inferred values large.2
              (codes "processed")
              (is_handler.infers printed values (codes "processed")
                (list_returns values large.0 large.1)))
            (chain _ (session-answers requests printed large.3) (return_ends _))
      session-answers (value_request row column ∷ requests) printed large =
          chain _
            (computed_value_arrives connected fuel enough computed inferred row column
              (is_handler.computes printed row column (value_returns row column)))
            (session-answers requests _ large)
