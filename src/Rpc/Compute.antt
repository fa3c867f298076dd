-- ===== src/Rpc/Compute.antt =====
-- MLInfer/tthreaded/gen-cpp/Compute.cpp and its header: the processor of the service Compute.
pub mod ComputedValue
pub mod ComputeList
pub mod Session
use Prim.Native.String.{String}
use apache_thrift_benchmarki.Prelude.{ℕ, Bool, [], ◌∷◌, List, Option}
use apache_thrift_benchmarki.Prelude.Int.{ℤ}
use apache_thrift_benchmarki.Format.{Text, codes}
use apache_thrift_benchmarki.Rpc.Wire.{M, Protocol}
use apache_thrift_benchmarki.Rpc.Call
use apache_thrift_benchmarki.Rpc.Call.{EventHandler, ProcessMap}
use apache_thrift_benchmarki.Rpc.Compute.ComputedValue.{process_computed_value}
use apache_thrift_benchmarki.Rpc.Compute.ComputeList.{process_compute_list}

-- `computed` and `inferred` are the methods of the handler.
module _ {W D C : Type 0} (iprot oprot : Protocol W D) (event_handler : Option (EventHandler W C))
    (fuel : ℕ) (computed : ℤ → ℤ → M W (Unit {0}))
    (inferred : List (List (List D)) → M W Text) where
  unfoldable pub process_map : ProcessMap W
  process_map =
      (codes "computed_value", process_computed_value iprot oprot event_handler fuel computed)
      ∷ (codes "compute_list", process_compute_list iprot oprot event_handler fuel inferred)
      ∷ []

  unfoldable pub dispatch_call : Text → ℤ → M W Bool
  unfolding process_map
  dispatch_call fname seqid = Call.dispatch_call iprot oprot process_map fname seqid
