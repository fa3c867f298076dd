-- ===== src/Tests/Inferring.antt =====
-- A session of MLInfer's threaded server over a connection of two queues.
use apache_thrift_benchmarki.Prelude.{
  ℕ, zero, suc, refl, arith, List, [], ◌∷◌, ◌++◌, Option, none, some, replicate,
}
use apache_thrift_benchmarki.Prelude.Lists.{length-replicate}
use apache_thrift_benchmarki.Prelude.Int.{ℤ, pos}
use apache_thrift_benchmarki.Format.{Text, codes}
use apache_thrift_benchmarki.Inference
use apache_thrift_benchmarki.Inference.{Torch, Result, threaded_compute_list}
use apache_thrift_benchmarki.Inference.Values.{Line, threaded_computed_value}
use apache_thrift_benchmarki.Rpc.Wire.{M, Outcome, returned, thrown, other}
use apache_thrift_benchmarki.Rpc.Wire.Ends.{Ends}
use apache_thrift_benchmarki.Rpc.Struct.Lists.{Each}
use apache_thrift_benchmarki.Rpc.Compute.Session
use apache_thrift_benchmarki.Rpc.Compute.Session.{
  ComputeRequest, list_request, value_request, IsCompute, prints, session-answers,
}
use apache_thrift_benchmarki.Rpc.Compute.ComputeList.Trip.{RowFits, PlaneFits, Fits}
use apache_thrift_benchmarki.Tests.Loopback.{Loop, loop_request, loop_response, LoopHolds, loop}
use apache_thrift_benchmarki.Tests.Inference.{small, row, image, image-Tall}

abbrev torch : Torch
torch = small (some 1)

abbrev Inferring : Type 0
Inferring = Loop (List Line) ℕ

abbrev listed : Result → Inferring → Outcome Text × Inferring
listed (Inference.returned answer) w = (returned answer, w)
listed Inference.thrown w = (thrown (other []), w)
listed Inference.undefined w = (thrown (other []), w)

abbrev infer : List (List (List ℕ)) → M Inferring Text
infer values w = listed (threaded_compute_list torch values) w

abbrev ended : Option (Unit {0}) → Outcome (Unit {0})
ended none = thrown (other [])
ended (some done) = returned tt

abbrev compute : ℤ → ℤ → M Inferring (Unit {0})
compute row column w = (
  ended (threaded_computed_value torch row column).1,
  (w.0 ++ (threaded_computed_value torch row column).0, w.1, w.2),
)

IsCompute-compute : IsCompute torch LoopHolds compute infer
IsCompute-compute = record {
  infers = λ printed values answer e. record { at = λ w h. (w, rw e refl, h) };
  computes = λ printed row column e. record {
    at = λ w h.
        ((w.0 ++ (threaded_computed_value torch row column).0, w.1, w.2), rw e refl, rw h refl);
  };
}

every_one : {A : Type 0} (Good : A → Type 0) (n : ℕ) (x : A) → Good x → Each Good (replicate n x)
every_one Good zero x good = tt
every_one Good (suc n) x good = (good, every_one Good n x good)

row-RowFits : RowFits row
row-RowFits = omega (arith, length-replicate {A = ℕ} 224 7)

image-Fits : Fits image
image-Fits = (
  omega arith,
  every_one PlaneFits 3 (replicate 224 row)
      (omega (arith, length-replicate 224 row), every_one RowFits 224 row row-RowFits),
)

abbrev asked : List (ComputeRequest ℕ)
asked = list_request image ∷ value_request (pos 4) (pos 5) ∷ list_request image ∷ []

session-answers_example :
    Ends
      (LoopHolds [] [] [])
      (Session.session loop_request loop_response 3 compute infer asked)
      (returned (codes "processed" ∷ codes "processed" ∷ []))
      (LoopHolds (prints torch [] asked) [] [])
session-answers_example =
    session-answers torch (λ tensor. (tt, codes "0.5", refl, refl)) loop 3 (omega arith)
      IsCompute-compute asked []
      (omega arith, image-Tall, image-Fits, (omega arith, image-Tall, image-Fits, tt))
