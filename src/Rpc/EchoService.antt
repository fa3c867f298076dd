-- ===== src/Rpc/EchoService.antt =====
-- EchoServerHindsight/tthreaded/gen-cpp/EchoService.cpp: the stubs of the method call of
-- the service EchoService. The event handler and the fuel of the loops are parameters.
pub mod Trip
use Prim.Native.String.{String}
use apache_thrift_benchmarki.Prelude.{
  ℕ, Bool, true, false, List, [], ◌∷◌, Option, none, some, if◌then◌else◌,
}
use apache_thrift_benchmarki.Prelude.Int.{ℤ, pos, eq_ℤ}
use apache_thrift_benchmarki.Format.{Text, codes}
use apache_thrift_benchmarki.Rpc.Wire.{
  M, ◌>>=◌, ◌>>◌, return, Protocol, Part, i32, i64, text, double, TType, t_i32, t_i64, t_string,
  t_struct, t_list, t_double, t_call, t_oneway,
}
use apache_thrift_benchmarki.Rpc.Struct.{
  skip_field, if_type, member, read_struct, write_field, write_struct, read_list, write_list,
}
use apache_thrift_benchmarki.Rpc.Results.{
  TextResult, empty_result, with_success, text_success, read_text_result, write_text_result,
  read_void_result, write_void_result,
}
use apache_thrift_benchmarki.Rpc.TraceContext.{
  TraceContext, empty_trace_context, read_trace_context, write_trace_context,
}
use apache_thrift_benchmarki.Rpc.Call.{
  EventHandler, ProcessMap, send, recv, process, process_oneway,
}
use apache_thrift_benchmarki.Rpc.Call
use apache_thrift_benchmarki.Rpc.Call.Concurrent.{
  Sync, send_concurrent, send_concurrent_oneway, recv_concurrent,
}

-- `EchoService_call_args`
pub record Args : Type 0 where
  pub req : TraceContext
  pub isset_req : Bool
  pub message : Text
  pub isset_message : Bool

abbrev pub empty_args : Args
empty_args = record {
  req = empty_trace_context;
  isset_req = false;
  message = [];
  isset_message = false;
}

module _ {W D : Type 0} (prot : Protocol W D) where
  unfoldable pub args_switch : ℕ → ℤ → TType → Args → M W Args
  args_switch fuel fid ftype this =
      if eq_ℤ fid (pos 1)
      then if_type prot t_struct
          (do
            req ← read_trace_context prot fuel this.req
            return (record this { req = req; isset_req = true }))
          ftype this
      else if eq_ℤ fid (pos 2)
      then member prot t_string text
          (λ message. record this { message = message; isset_message = true }) ftype this
      else skip_field prot ftype this

  unfoldable pub read_args : ℕ → Args → M W Args
  unfolding args_switch
  read_args fuel this = read_struct prot (args_switch fuel) fuel this

  unfoldable pub write_args : Args → M W (Unit {0})
  write_args this = write_struct prot (codes "EchoService_call_args") (do
    write_field prot (codes "req") t_struct (pos 1) (write_trace_context prot this.req)
    write_field prot (codes "message") t_string (pos 2) (prot.write text [] this.message))

  unfoldable pub write_pargs : TraceContext → Text → M W (Unit {0})
  write_pargs req message = write_struct prot (codes "EchoService_call_pargs") (do
    write_field prot (codes "req") t_struct (pos 1) (write_trace_context prot req)
    write_field prot (codes "message") t_string (pos 2) (prot.write text [] message))

  unfoldable pub read_result : ℕ → M W (Unit {0})
  read_result fuel = read_void_result prot fuel

  unfoldable pub write_result : M W (Unit {0})
  write_result = write_void_result prot (codes "EchoService_call_result")

  unfoldable pub read_presult : ℕ → M W (Unit {0})
  read_presult fuel = read_void_result prot fuel

  unfoldable pub send_call : TraceContext → Text → M W (Unit {0})
  send_call req message = send prot (codes "call") t_call (pos 0) (write_pargs req message)

  unfoldable pub recv_call : ℕ → M W (Unit {0})
  recv_call fuel = recv prot (codes "call") (read_presult fuel) some

  module _ (sync : Sync W) where
    unfoldable pub send_call_concurrent : TraceContext → Text → M W ℤ
    send_call_concurrent req message =
        send_concurrent prot sync (codes "call") (write_pargs req message)

    unfoldable pub recv_call_concurrent : ℕ → ℕ → ℤ → M W (Unit {0})
    recv_call_concurrent rounds fuel seqid =
        recv_concurrent prot sync (codes "call") (read_presult fuel) some rounds seqid

module _ {W D : Type 0} (iprot oprot : Protocol W D) where
  unfoldable pub call : ℕ → TraceContext → Text → M W (Unit {0})
  call fuel req message = do send_call oprot req message; recv_call iprot fuel

  unfoldable pub call_concurrent : Sync W → ℕ → ℕ → TraceContext → Text → M W (Unit {0})
  call_concurrent sync rounds fuel req message = do
    seqid ← send_call_concurrent oprot sync req message
    recv_call_concurrent iprot sync rounds fuel seqid

  -- `iface` is the method of the handler.
  module _ {C : Type 0} (event_handler : Option (EventHandler W C)) (fuel : ℕ)
      (iface : TraceContext → Text → M W (Unit {0})) where
    unfoldable pub process_call : ℤ → M W (Unit {0})
    process_call seqid =
        process iprot oprot event_handler (codes "EchoService.call") (codes "call")
          (read_args iprot fuel empty_args) (λ args. iface args.req args.message)
          (λ _. write_result oprot) seqid

    unfoldable pub process_map : ProcessMap W
    process_map = (codes "call", process_call) ∷ []

    unfoldable pub dispatch_call : Text → ℤ → M W Bool
    unfolding process_map
    dispatch_call fname seqid = Call.dispatch_call iprot oprot process_map fname seqid
