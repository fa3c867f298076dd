-- ===== src/Rpc/Message.antt =====
-- dump/tthreaded/gen-cpp/Message.cpp and its header: the stubs of the service Message. The event
-- handler and the fuel of the loops are parameters.
pub mod Trip
pub mod Session
use apache_thrift_benchmarki.Prelude.{ℕ, Bool, true, false, [], ◌∷◌, Option, if◌then◌else◌}
use apache_thrift_benchmarki.Prelude.Int.{ℤ, pos, eq_ℤ}
use apache_thrift_benchmarki.Format.{Text, codes}
use apache_thrift_benchmarki.Rpc.Wire.{
  M, ◌>>=◌, ◌>>◌, return, Protocol, text, TType, t_string, t_call,
}
use apache_thrift_benchmarki.Rpc.Struct.{skip_field, member, read_struct, write_field, write_struct}
use apache_thrift_benchmarki.Rpc.Results.{
  TextResult, empty_result, with_success, text_success, read_text_result, write_text_result,
}
use apache_thrift_benchmarki.Rpc.Call.{
  EventHandler, ProcessMap, send, recv, process, process_oneway,
}
use apache_thrift_benchmarki.Rpc.Call
use apache_thrift_benchmarki.Rpc.Call.Concurrent.{Sync, send_concurrent, recv_concurrent}

-- `Message_motd_args`
pub record Args : Type 0 where
  pub value : Text
  pub isset_value : Bool

abbrev pub empty_args : Args
empty_args = record { value = []; isset_value = false }

module _ {W D : Type 0} (prot : Protocol W D) where
  unfoldable pub args_switch : ℤ → TType → Args → M W Args
  args_switch fid ftype this =
      if eq_ℤ fid (pos 1)
      then member prot t_string text (λ value. record this { value = value; isset_value = true })
          ftype this
      else skip_field prot ftype this

  unfoldable pub read_args : ℕ → Args → M W Args
  unfolding args_switch
  read_args fuel this = read_struct prot args_switch fuel this

  unfoldable pub write_args : Args → M W (Unit {0})
  write_args this =
      write_struct prot (codes "Message_motd_args")
        (do write_field prot (codes "Value") t_string (pos 1) (prot.write text [] this.value))

  unfoldable pub write_pargs : Text → M W (Unit {0})
  write_pargs value =
      write_struct prot (codes "Message_motd_pargs")
        (do write_field prot (codes "Value") t_string (pos 1) (prot.write text [] value))

  unfoldable pub read_result : ℕ → TextResult → M W TextResult
  read_result fuel this = read_text_result prot fuel this

  unfoldable pub write_result : TextResult → M W (Unit {0})
  write_result this = write_text_result prot (codes "Message_motd_result") this

  unfoldable pub read_presult : ℕ → TextResult → M W TextResult
  read_presult fuel this = read_text_result prot fuel this

  unfoldable pub send_motd : Text → M W (Unit {0})
  send_motd value = send prot (codes "motd") t_call (pos 0) (write_pargs value)

  unfoldable pub recv_motd : ℕ → M W Text
  recv_motd fuel = recv prot (codes "motd") (read_presult fuel empty_result) text_success

  module _ (sync : Sync W) where
    unfoldable pub send_motd_concurrent : Text → M W ℤ
    send_motd_concurrent value = send_concurrent prot sync (codes "motd") (write_pargs value)

    unfoldable pub recv_motd_concurrent : ℕ → ℕ → ℤ → M W Text
    recv_motd_concurrent rounds fuel seqid =
        recv_concurrent prot sync (codes "motd") (read_presult fuel empty_result) text_success
          rounds seqid

module _ {W D : Type 0} (iprot oprot : Protocol W D) where
  unfoldable pub motd : ℕ → Text → M W Text
  motd fuel value = do send_motd oprot value; recv_motd iprot fuel

  unfoldable pub motd_concurrent : Sync W → ℕ → ℕ → Text → M W Text
  motd_concurrent sync rounds fuel value = do
    seqid ← send_motd_concurrent oprot sync value
    recv_motd_concurrent iprot sync rounds fuel seqid

  -- `iface` is the method of the handler.
  module _ {C : Type 0} (event_handler : Option (EventHandler W C)) (fuel : ℕ)
      (iface : Text → M W Text) where
    unfoldable pub process_motd : ℤ → M W (Unit {0})
    process_motd seqid =
        process iprot oprot event_handler (codes "Message.motd") (codes "motd")
          (read_args iprot fuel empty_args)
          (λ args. do success ← iface args.value; return (with_success success))
          (write_result oprot) seqid

    unfoldable pub process_map : ProcessMap W
    process_map = (codes "motd", process_motd) ∷ []

    unfoldable pub dispatch_call : Text → ℤ → M W Bool
    unfolding process_map
    dispatch_call fname seqid = Call.dispatch_call iprot oprot process_map fname seqid
