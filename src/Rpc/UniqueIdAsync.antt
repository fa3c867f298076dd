-- ===== src/Rpc/UniqueIdAsync.antt =====
-- DSBUniqueIDAsyncService/tthreadedserver/gen-cpp/UniqueIDAsync.cpp and its header: the stubs of the service UniqueIDAsync. The event
-- handler and the fuel of the loops are parameters.
pub mod Trip
use apache_thrift_benchmarki.Prelude.{ℕ, Bool, true, false, [], ◌∷◌, Option, if◌then◌else◌}
use apache_thrift_benchmarki.Prelude.Int.{ℤ, pos, eq_ℤ}
use apache_thrift_benchmarki.Format.{Text, codes}
use apache_thrift_benchmarki.Rpc.Wire.{M, Protocol, i64, TType, t_i64, t_oneway}
use apache_thrift_benchmarki.Rpc.Struct.{skip_field, member, read_struct, write_field, write_struct}
use apache_thrift_benchmarki.Rpc.Call.{
  EventHandler, ProcessMap, send, recv, process, process_oneway,
}
use apache_thrift_benchmarki.Rpc.Call
use apache_thrift_benchmarki.Rpc.Call.Concurrent.{Sync, send_concurrent_oneway}

-- `UniqueIDAsync_compute_unique_id_args`
pub record Args : Type 0 where
  pub id : ℤ
  pub isset_id : Bool

abbrev pub empty_args : Args
empty_args = record { id = pos 0; isset_id = false }

module _ {W D : Type 0} (prot : Protocol W D) where
  unfoldable pub args_switch : ℤ → TType → Args → M W Args
  args_switch fid ftype this =
      if eq_ℤ fid (pos 1)
      then member prot t_i64 i64 (λ id. record this { id = id; isset_id = true }) ftype this
      else skip_field prot ftype this

  unfoldable pub read_args : ℕ → Args → M W Args
  unfolding args_switch
  read_args fuel this = read_struct prot args_switch fuel this

  unfoldable pub write_args : Args → M W (Unit {0})
  write_args this =
      write_struct prot (codes "UniqueIDAsync_compute_unique_id_args")
        (do write_field prot (codes "id") t_i64 (pos 1) (prot.write i64 [] this.id))

  unfoldable pub write_pargs : ℤ → M W (Unit {0})
  write_pargs id =
      write_struct prot (codes "UniqueIDAsync_compute_unique_id_pargs")
        (do write_field prot (codes "id") t_i64 (pos 1) (prot.write i64 [] id))

  unfoldable pub send_compute_unique_id : ℤ → M W (Unit {0})
  send_compute_unique_id id =
      send prot (codes "compute_unique_id") t_oneway (pos 0) (write_pargs id)

  module _ (sync : Sync W) where
    unfoldable pub send_compute_unique_id_concurrent : ℤ → M W (Unit {0})
    send_compute_unique_id_concurrent id =
        send_concurrent_oneway prot sync (codes "compute_unique_id") (write_pargs id)

module _ {W D : Type 0} (iprot oprot : Protocol W D) where
  unfoldable pub compute_unique_id : ℤ → M W (Unit {0})
  compute_unique_id id = send_compute_unique_id oprot id

  unfoldable pub compute_unique_id_concurrent : Sync W → ℤ → M W (Unit {0})
  compute_unique_id_concurrent sync id = send_compute_unique_id_concurrent oprot sync id

  -- `iface` is the method of the handler.
  module _ {C : Type 0} (event_handler : Option (EventHandler W C)) (fuel : ℕ)
      (iface : ℤ → M W (Unit {0})) where
    unfoldable pub process_compute_unique_id : ℤ → M W (Unit {0})
    process_compute_unique_id seqid =
        process_oneway iprot oprot event_handler (codes "UniqueIDAsync.compute_unique_id")
          (read_args iprot fuel empty_args) (λ args. iface args.id) seqid

    unfoldable pub process_map : ProcessMap W
    process_map = (codes "compute_unique_id", process_compute_unique_id) ∷ []

    unfoldable pub dispatch_call : Text → ℤ → M W Bool
    unfolding process_map
    dispatch_call fname seqid = Call.dispatch_call iprot oprot process_map fname seqid
