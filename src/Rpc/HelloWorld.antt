-- ===== src/Rpc/HelloWorld.antt =====
-- EchoService/echoservice-ttd/gen-cpp/HelloWorld.cpp and its header: the stubs of the service HelloWorld. The event
-- handler and the fuel of the loops are parameters.
pub mod Trip
use apache_thrift_benchmarki.Prelude.{ℕ, Bool, [], ◌∷◌, Option}
use apache_thrift_benchmarki.Prelude.Int.{ℤ, pos}
use apache_thrift_benchmarki.Format.{Text, codes}
use apache_thrift_benchmarki.Rpc.Wire.{M, ◌>>=◌, ◌>>◌, return, Protocol, t_call}
use apache_thrift_benchmarki.Rpc.Struct.{skip_field, read_struct, write_struct}
use apache_thrift_benchmarki.Rpc.Results.{
  TextResult, empty_result, with_success, text_success, read_text_result, write_text_result,
}
use apache_thrift_benchmarki.Rpc.Call.{
  EventHandler, ProcessMap, send, recv, process, process_oneway,
}
use apache_thrift_benchmarki.Rpc.Call
use apache_thrift_benchmarki.Rpc.Call.Concurrent.{Sync, send_concurrent, recv_concurrent}

module _ {W D : Type 0} (prot : Protocol W D) where
  unfoldable pub read_args : ℕ → M W (Unit {0})
  read_args fuel = read_struct prot (λ fid ftype this. skip_field prot ftype this) fuel tt

  unfoldable pub write_args : M W (Unit {0})
  write_args = write_struct prot (codes "HelloWorld_hello_world_args") (return tt)

  unfoldable pub write_pargs : M W (Unit {0})
  write_pargs = write_struct prot (codes "HelloWorld_hello_world_pargs") (return tt)

  unfoldable pub read_result : ℕ → TextResult → M W TextResult
  read_result fuel this = read_text_result prot fuel this

  unfoldable pub write_result : TextResult → M W (Unit {0})
  write_result this = write_text_result prot (codes "HelloWorld_hello_world_result") this

  unfoldable pub read_presult : ℕ → TextResult → M W TextResult
  read_presult fuel this = read_text_result prot fuel this

  unfoldable pub send_hello_world : M W (Unit {0})
  send_hello_world = send prot (codes "hello_world") t_call (pos 0) (write_pargs)

  unfoldable pub recv_hello_world : ℕ → M W Text
  recv_hello_world fuel =
      recv prot (codes "hello_world") (read_presult fuel empty_result) text_success

  module _ (sync : Sync W) where
    unfoldable pub send_hello_world_concurrent : M W ℤ
    send_hello_world_concurrent = send_concurrent prot sync (codes "hello_world") (write_pargs)

    unfoldable pub recv_hello_world_concurrent : ℕ → ℕ → ℤ → M W Text
    recv_hello_world_concurrent rounds fuel seqid =
        recv_concurrent prot sync (codes "hello_world") (read_presult fuel empty_result)
          text_success rounds seqid

module _ {W D : Type 0} (iprot oprot : Protocol W D) where
  unfoldable pub hello_world : ℕ → M W Text
  hello_world fuel = do send_hello_world oprot; recv_hello_world iprot fuel

  unfoldable pub hello_world_concurrent : Sync W → ℕ → ℕ → M W Text
  hello_world_concurrent sync rounds fuel = do
    seqid ← send_hello_world_concurrent oprot sync
    recv_hello_world_concurrent iprot sync rounds fuel seqid

  -- `iface` is the method of the handler.
  module _ {C : Type 0} (event_handler : Option (EventHandler W C)) (fuel : ℕ)
      (iface : M W Text) where
    unfoldable pub process_hello_world : ℤ → M W (Unit {0})
    process_hello_world seqid =
        process iprot oprot event_handler (codes "HelloWorld.hello_world") (codes "hello_world")
          (read_args iprot fuel) (λ _. do success ← iface; return (with_success success))
          (write_result oprot) seqid

    unfoldable pub process_map : ProcessMap W
    process_map = (codes "hello_world", process_hello_world) ∷ []

    unfoldable pub dispatch_call : Text → ℤ → M W Bool
    unfolding process_map
    dispatch_call fname seqid = Call.dispatch_call iprot oprot process_map fname seqid
