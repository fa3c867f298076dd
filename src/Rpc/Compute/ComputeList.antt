-- ===== src/Rpc/Compute/ComputeList.antt =====
-- MLInfer/tthreaded/gen-cpp/Compute.cpp: the stubs of the method compute_list of
-- the service Compute. The event handler and the fuel of the loops are parameters.
pub mod Trip
use Prim.Native.String.{String}
use apache_thrift_benchmarki.Prelude.{
  ℕ, Bool, true, false, List, [], ◌∷◌, Option, none, some, if◌then◌else◌,
}
use apache_thrift_benchmarki.Prelude.Int.{ℤ, pos, eq_ℤ}
use apache_thrift_benchmarki.Format.{Text, codes}
use apache_thrift_benchmarki.Rpc.Wire.{
  M, ◌>>=◌, ◌>>◌, return, Protocol, Part, i32, i64, text, double, TType, t_i32, t_i64, t_string,
  t_struct, t_list, t_double, t_call, t_oneway,
}
use apache_thrift_benchmarki.Rpc.Struct.{
  skip_field, if_type, member, read_struct, write_field, write_struct, read_list, write_list,
}
use apache_thrift_benchmarki.Rpc.Results.{
  TextResult, empty_result, with_success, text_success, read_text_result, write_text_result,
  read_void_result, write_void_result,
}
use apache_thrift_benchmarki.Rpc.Call.{
  EventHandler, ProcessMap, send, recv, process, process_oneway,
}
use apache_thrift_benchmarki.Rpc.Call
use apache_thrift_benchmarki.Rpc.Call.Concurrent.{
  Sync, send_concurrent, send_concurrent_oneway, recv_concurrent,
}

-- `Compute_compute_list_args`
pub record Args (D : Type 0) : Type 0 where
  pub values : List (List (List D))
  pub isset_values : Bool

abbrev pub empty_args : {D : Type 0} → Args D
empty_args = record { values = []; isset_values = false }

module _ {W D : Type 0} (prot : Protocol W D) where
  unfoldable pub args_switch : ℤ → TType → Args D → M W (Args D)
  args_switch fid ftype this =
      if eq_ℤ fid (pos 1)
      then if_type prot t_list
          (do
            values ← read_list prot (read_list prot (read_list prot (prot.read double)))
            return (record this { values = values; isset_values = true }))
          ftype this
      else skip_field prot ftype this

  unfoldable pub read_args : ℕ → Args D → M W (Args D)
  unfolding args_switch
  read_args fuel this = read_struct prot args_switch fuel this

  unfoldable pub write_args : Args D → M W (Unit {0})
  write_args this = write_struct prot (codes "Compute_compute_list_args") (do
    write_field prot (codes "values") t_list (pos 1) (
        write_list prot t_list
          (write_list prot t_list (write_list prot t_double (prot.write double []))) this.values))

  unfoldable pub write_pargs : List (List (List D)) → M W (Unit {0})
  write_pargs values = write_struct prot (codes "Compute_compute_list_pargs") (do
    write_field prot (codes "values") t_list (pos 1) (
        write_list prot t_list
          (write_list prot t_list (write_list prot t_double (prot.write double []))) values))

  unfoldable pub read_result : ℕ → TextResult → M W TextResult
  read_result fuel this = read_text_result prot fuel this

  unfoldable pub write_result : TextResult → M W (Unit {0})
  write_result this = write_text_result prot (codes "Compute_compute_list_result") this

  unfoldable pub read_presult : ℕ → TextResult → M W TextResult
  read_presult fuel this = read_text_result prot fuel this

  unfoldable pub send_compute_list : List (List (List D)) → M W (Unit {0})
  send_compute_list values = send prot (codes "compute_list") t_call (pos 0) (write_pargs values)

  unfoldable pub recv_compute_list : ℕ → M W Text
  recv_compute_list fuel =
      recv prot (codes "compute_list") (read_presult fuel empty_result) text_success

  module _ (sync : Sync W) where
    unfoldable pub send_compute_list_concurrent : List (List (List D)) → M W ℤ
    send_compute_list_concurrent values =
        send_concurrent prot sync (codes "compute_list") (write_pargs values)

    unfoldable pub recv_compute_list_concurrent : ℕ → ℕ → ℤ → M W Text
    recv_compute_list_concurrent rounds fuel seqid =
        recv_concurrent prot sync (codes "compute_list") (read_presult fuel empty_result)
          text_success rounds seqid

module _ {W D : Type 0} (iprot oprot : Protocol W D) where
  unfoldable pub compute_list : ℕ → List (List (List D)) → M W Text
  compute_list fuel values = do send_compute_list oprot values; recv_compute_list iprot fuel

  unfoldable pub compute_list_concurrent : Sync W → ℕ → ℕ → List (List (List D)) → M W Text
  compute_list_concurrent sync rounds fuel values = do
    seqid ← send_compute_list_concurrent oprot sync values
    recv_compute_list_concurrent iprot sync rounds fuel seqid

  -- `iface` is the method of the handler.
  module _ {C : Type 0} (event_handler : Option (EventHandler W C)) (fuel : ℕ)
      (iface : List (List (List D)) → M W Text) where
    unfoldable pub process_compute_list : ℤ → M W (Unit {0})
    process_compute_list seqid =
        process iprot oprot event_handler (codes "Compute.compute_list") (codes "compute_list")
          (read_args iprot fuel empty_args)
          (λ args. do success ← iface args.values; return (with_success success))
          (write_result oprot) seqid
