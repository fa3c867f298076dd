-- ===== src/Rpc/AsyncService.antt =====
-- AsyncEchoServer/gen-cpp/AsyncService.cpp and its header: the stubs of the service AsyncService. The event
-- handler and the fuel of the loops are parameters.
pub mod Trip
use apache_thrift_benchmarki.Prelude.{ℕ, Bool, true, false, [], ◌∷◌, Option, if◌then◌else◌}
use apache_thrift_benchmarki.Prelude.Int.{ℤ, pos, eq_ℤ}
use apache_thrift_benchmarki.Format.{Text, codes}
use apache_thrift_benchmarki.Rpc.Wire.{M, ◌>>◌, Protocol, i64, TType, t_i64, t_oneway}
use apache_thrift_benchmarki.Rpc.Struct.{skip_field, member, read_struct, write_field, write_struct}
use apache_thrift_benchmarki.Rpc.Call.{
  EventHandler, ProcessMap, send, recv, process, process_oneway,
}
use apache_thrift_benchmarki.Rpc.Call
use apache_thrift_benchmarki.Rpc.Call.Concurrent.{Sync, send_concurrent_oneway}

-- `AsyncService_compute_result_args`
pub record Args : Type 0 where
  pub num_1 : ℤ
  pub isset_num_1 : Bool
  pub num_2 : ℤ
  pub isset_num_2 : Bool

abbrev pub empty_args : Args
empty_args = record { num_1 = pos 0; isset_num_1 = false; num_2 = pos 0; isset_num_2 = false }

module _ {W D : Type 0} (prot : Protocol W D) where
  unfoldable pub args_switch : ℤ → TType → Args → M W Args
  args_switch fid ftype this =
      if eq_ℤ fid (pos 1)
      then member prot t_i64 i64 (λ num_1. record this { num_1 = num_1; isset_num_1 = true }) ftype
          this
      else if eq_ℤ fid (pos 2)
      then member prot t_i64 i64 (λ num_2. record this { num_2 = num_2; isset_num_2 = true }) ftype
          this
      else skip_field prot ftype this

  unfoldable pub read_args : ℕ → Args → M W Args
  unfolding args_switch
  read_args fuel this = read_struct prot args_switch fuel this

  unfoldable pub write_args : Args → M W (Unit {0})
  write_args this = write_struct prot (codes "AsyncService_compute_result_args") (do
    write_field prot (codes "num_1") t_i64 (pos 1) (prot.write i64 [] this.num_1)
    write_field prot (codes "num_2") t_i64 (pos 2) (prot.write i64 [] this.num_2))

  unfoldable pub write_pargs : ℤ → ℤ → M W (Unit {0})
  write_pargs num_1 num_2 = write_struct prot (codes "AsyncService_compute_result_pargs") (do
    write_field prot (codes "num_1") t_i64 (pos 1) (prot.write i64 [] num_1)
    write_field prot (codes "num_2") t_i64 (pos 2) (prot.write i64 [] num_2))

  unfoldable pub send_compute_result : ℤ → ℤ → M W (Unit {0})
  send_compute_result num_1 num_2 =
      send prot (codes "compute_result") t_oneway (pos 0) (write_pargs num_1 num_2)

  module _ (sync : Sync W) where
    unfoldable pub send_compute_result_concurrent : ℤ → ℤ → M W (Unit {0})
    send_compute_result_concurrent num_1 num_2 =
        send_concurrent_oneway prot sync (codes "compute_result") (write_pargs num_1 num_2)

module _ {W D : Type 0} (iprot oprot : Protocol W D) where
  unfoldable pub compute_result : ℤ → ℤ → M W (Unit {0})
  compute_result num_1 num_2 = send_compute_result oprot num_1 num_2

  unfoldable pub compute_result_concurrent : Sync W → ℤ → ℤ → M W (Unit {0})
  compute_result_concurrent sync num_1 num_2 = send_compute_result_concurrent oprot sync num_1 num_2

  -- `iface` is the method of the handler.
  module _ {C : Type 0} (event_handler : Option (EventHandler W C)) (fuel : ℕ)
      (iface : ℤ → ℤ → M W (Unit {0})) where
    unfoldable pub process_compute_result : ℤ → M W (Unit {0})
    process_compute_result seqid =
        process_oneway iprot oprot event_handler (codes "AsyncService.compute_result")
          (read_args iprot fuel empty_args) (λ args. iface args.num_1 args.num_2) seqid

    unfoldable pub process_map : ProcessMap W
    process_map = (codes "compute_result", process_compute_result) ∷ []

    unfoldable pub dispatch_call : Text → ℤ → M W Bool
    unfolding process_map
    dispatch_call fname seqid = Call.dispatch_call iprot oprot process_map fname seqid
