-- ===== src/Rpc/UniqueId.antt =====
-- DSBUniqueIDService/tthreadedserver/gen-cpp/UniqueID.cpp and its header: the stubs of the service UniqueID. The event
-- handler and the fuel of the loops are parameters.
pub mod Trip
pub mod Session
use apache_thrift_benchmarki.Prelude.{ℕ, Bool, true, false, [], ◌∷◌, Option, if◌then◌else◌}
use apache_thrift_benchmarki.Prelude.Int.{ℤ, pos, eq_ℤ}
use apache_thrift_benchmarki.Format.{Text, codes}
use apache_thrift_benchmarki.Rpc.Wire.{M, ◌>>=◌, ◌>>◌, return, Protocol, i32, TType, t_i32, t_call}
use apache_thrift_benchmarki.Rpc.Struct.{skip_field, member, read_struct, write_field, write_struct}
use apache_thrift_benchmarki.Rpc.Results.{
  TextResult, empty_result, with_success, text_success, read_text_result, write_text_result,
}
use apache_thrift_benchmarki.Rpc.Call.{
  EventHandler, ProcessMap, send, recv, process, process_oneway,
}
use apache_thrift_benchmarki.Rpc.Call
use apache_thrift_benchmarki.Rpc.Call.Concurrent.{Sync, send_concurrent, recv_concurrent}

-- `UniqueID_compute_unique_id_args`
pub record Args : Type 0 where
  pub id : ℤ
  pub isset_id : Bool

abbrev pub empty_args : Args
empty_args = record { id = pos 0; isset_id = false }

module _ {W D : Type 0} (prot : Protocol W D) where
  unfoldable pub args_switch : ℤ → TType → Args → M W Args
  args_switch fid ftype this =
      if eq_ℤ fid (pos 1)
      then member prot t_i32 i32 (λ id. record this { id = id; isset_id = true }) ftype this
      else skip_field prot ftype this

  unfoldable pub read_args : ℕ → Args → M W Args
  unfolding args_switch
  read_args fuel this = read_struct prot args_switch fuel this

  unfoldable pub write_args : Args → M W (Unit {0})
  write_args this =
      write_struct prot (codes "UniqueID_compute_unique_id_args")
        (do write_field prot (codes "id") t_i32 (pos 1) (prot.write i32 [] this.id))

  unfoldable pub write_pargs : ℤ → M W (Unit {0})
  write_pargs id =
      write_struct prot (codes "UniqueID_compute_unique_id_pargs")
        (do write_field prot (codes "id") t_i32 (pos 1) (prot.write i32 [] id))

  unfoldable pub read_result : ℕ → TextResult → M W TextResult
  read_result fuel this = read_text_result prot fuel this

  unfoldable pub write_result : TextResult → M W (Unit {0})
  write_result this = write_text_result prot (codes "UniqueID_compute_unique_id_result") this

  unfoldable pub read_presult : ℕ → TextResult → M W TextResult
  read_presult fuel this = read_text_result prot fuel this

  unfoldable pub send_compute_unique_id : ℤ → M W (Unit {0})
  send_compute_unique_id id = send prot (codes "compute_unique_id") t_call (pos 0) (write_pargs id)

  unfoldable pub recv_compute_unique_id : ℕ → M W Text
  recv_compute_unique_id fuel =
      recv prot (codes "compute_unique_id") (read_presult fuel empty_result) text_success

  module _ (sync : Sync W) where
    unfoldable pub send_compute_unique_id_concurrent : ℤ → M W ℤ
    send_compute_unique_id_concurrent id =
        send_concurrent prot sync (codes "compute_unique_id") (write_pargs id)

    unfoldable pub recv_compute_unique_id_concurrent : ℕ → ℕ → ℤ → M W Text
    recv_compute_unique_id_concurrent rounds fuel seqid =
        recv_concurrent prot sync (codes "compute_unique_id") (read_presult fuel empty_result)
          text_success rounds seqid

module _ {W D : Type 0} (iprot oprot : Protocol W D) where
  unfoldable pub compute_unique_id : ℕ → ℤ → M W Text
  compute_unique_id fuel id = do send_compute_unique_id oprot id; recv_compute_unique_id iprot fuel

  unfoldable pub compute_unique_id_concurrent : Sync W → ℕ → ℕ → ℤ → M W Text
  compute_unique_id_concurrent sync rounds fuel id = do
    seqid ← send_compute_unique_id_concurrent oprot sync id
    recv_compute_unique_id_concurrent iprot sync rounds fuel seqid

  -- `iface` is the method of the handler.
  module _ {C : Type 0} (event_handler : Option (EventHandler W C)) (fuel : ℕ)
      (iface : ℤ → M W Text) where
    unfoldable pub process_compute_unique_id : ℤ → M W (Unit {0})
    process_compute_unique_id seqid =
        process iprot oprot event_handler (codes "UniqueID.compute_unique_id")
          (codes "compute_unique_id") (read_args iprot fuel empty_args)
          (λ args. do success ← iface args.id; return (with_success success)) (write_result oprot)
          seqid

    unfoldable pub process_map : ProcessMap W
    process_map = (codes "compute_unique_id", process_compute_unique_id) ∷ []

    unfoldable pub dispatch_call : Text → ℤ → M W Bool
    unfolding process_map
    dispatch_call fname seqid = Call.dispatch_call iprot oprot process_map fname seqid
