-- ===== src/Rpc/TradeHistory.antt =====
-- dump/nonblocking/gen-cpp/TradeHistory.cpp: the stubs of the method get_last_sale of
-- the service TradeHistory. The event handler and the fuel of the loops are parameters.
pub mod Trip
pub mod Session
pub mod Client
use Prim.Native.String.{String}
use apache_thrift_benchmarki.Prelude.{
  ℕ, Bool, true, false, List, [], ◌∷◌, Option, none, some, if◌then◌else◌,
}
use apache_thrift_benchmarki.Prelude.Int.{ℤ, pos, eq_ℤ}
use apache_thrift_benchmarki.Format.{Text, codes}
use apache_thrift_benchmarki.Rpc.Wire.{
  M, ◌>>=◌, ◌>>◌, return, Protocol, Part, i32, i64, text, double, TType, t_i32, t_i64, t_string,
  t_struct, t_list, t_double, t_call, t_oneway,
}
use apache_thrift_benchmarki.Rpc.Struct.{
  skip_field, if_type, member, read_struct, write_field, write_struct, read_list, write_list,
}
use apache_thrift_benchmarki.Rpc.Results.{
  TextResult, empty_result, with_success, text_success, read_text_result, write_text_result,
  read_void_result, write_void_result,
}
use apache_thrift_benchmarki.Rpc.TradeReport.{TradeReport, read_report, write_report}
use apache_thrift_benchmarki.Rpc.Call.{
  EventHandler, ProcessMap, send, recv, process, process_oneway,
}
use apache_thrift_benchmarki.Rpc.Call
use apache_thrift_benchmarki.Rpc.Call.Concurrent.{
  Sync, send_concurrent, send_concurrent_oneway, recv_concurrent,
}

-- `TradeHistory_get_last_sale_args`
pub record Args : Type 0 where
  pub symbol : Text
  pub isset_symbol : Bool

abbrev pub empty_args : Args
empty_args = record { symbol = []; isset_symbol = false }

-- `TradeHistory_get_last_sale_result`
pub record Result (D : Type 0) : Type 0 where
  pub success : TradeReport D
  pub isset_success : Bool

abbrev pub reported : {D : Type 0} → TradeReport D → Result D
reported success = record { success = success; isset_success = true }

abbrev pub report_success : {D : Type 0} → Result D → Option (TradeReport D)
report_success result = if result.isset_success then some result.success else none

module _ {W D : Type 0} (prot : Protocol W D) where
  unfoldable pub args_switch : ℤ → TType → Args → M W Args
  args_switch fid ftype this =
      if eq_ℤ fid (pos 1)
      then member prot t_string text
          (λ symbol. record this { symbol = symbol; isset_symbol = true }) ftype this
      else skip_field prot ftype this

  unfoldable pub read_args : ℕ → Args → M W Args
  unfolding args_switch
  read_args fuel this = read_struct prot args_switch fuel this

  unfoldable pub write_args : Args → M W (Unit {0})
  write_args this =
      write_struct prot (codes "TradeHistory_get_last_sale_args")
        (do write_field prot (codes "Symbol") t_string (pos 1) (prot.write text [] this.symbol))

  unfoldable pub write_pargs : Text → M W (Unit {0})
  write_pargs symbol =
      write_struct prot (codes "TradeHistory_get_last_sale_pargs")
        (do write_field prot (codes "Symbol") t_string (pos 1) (prot.write text [] symbol))

  -- In a `…_presult` the member `success` is a pointer.
  unfoldable pub result_switch : ℕ → ℤ → TType → Result D → M W (Result D)
  result_switch fuel fid ftype this =
      if eq_ℤ fid (pos 0)
      then if_type prot t_struct
          (do success ← read_report prot fuel this.success; return (reported success)) ftype this
      else skip_field prot ftype this

  unfoldable pub read_result : ℕ → Result D → M W (Result D)
  unfolding result_switch
  read_result fuel this = read_struct prot (result_switch fuel) fuel this

  unfoldable pub write_result : Result D → M W (Unit {0})
  write_result this = write_struct prot (codes "TradeHistory_get_last_sale_result") (
      if this.isset_success
      then write_field prot (codes "success") t_struct (pos 0) (write_report prot this.success)
      else return tt)

  unfoldable pub read_presult : ℕ → Result D → M W (Result D)
  read_presult fuel this = read_struct prot (result_switch fuel) fuel this

  unfoldable pub send_get_last_sale : Text → M W (Unit {0})
  send_get_last_sale symbol = send prot (codes "get_last_sale") t_call (pos 0) (write_pargs symbol)

  unfoldable pub recv_get_last_sale : ℕ → TradeReport D → M W (TradeReport D)
  recv_get_last_sale fuel out =
      recv prot (codes "get_last_sale")
        (read_presult fuel (record { success = out; isset_success = false })) report_success

  module _ (sync : Sync W) where
    unfoldable pub send_get_last_sale_concurrent : Text → M W ℤ
    send_get_last_sale_concurrent symbol =
        send_concurrent prot sync (codes "get_last_sale") (write_pargs symbol)

    unfoldable pub recv_get_last_sale_concurrent : ℕ → ℕ → TradeReport D → ℤ → M W (TradeReport D)
    recv_get_last_sale_concurrent rounds fuel out seqid =
        recv_concurrent prot sync (codes "get_last_sale")
          (read_presult fuel (record { success = out; isset_success = false })) report_success
          rounds seqid

module _ {W D : Type 0} (iprot oprot : Protocol W D) where
  unfoldable pub get_last_sale : ℕ → TradeReport D → Text → M W (TradeReport D)
  get_last_sale fuel out symbol = do
    send_get_last_sale oprot symbol
    recv_get_last_sale iprot fuel out

  unfoldable pub get_last_sale_concurrent :
      Sync W → ℕ → ℕ → TradeReport D → Text → M W (TradeReport D)
  get_last_sale_concurrent sync rounds fuel out symbol = do
    seqid ← send_get_last_sale_concurrent oprot sync symbol
    recv_get_last_sale_concurrent iprot sync rounds fuel out seqid

  -- `iface` is the method of the handler.
  module _ {C : Type 0} (event_handler : Option (EventHandler W C)) (fuel : ℕ)
      (iface : Text → M W (TradeReport D)) where
    unfoldable pub process_get_last_sale : ℤ → M W (Unit {0})
    process_get_last_sale seqid =
        process iprot oprot event_handler (codes "TradeHistory.get_last_sale")
          (codes "get_last_sale") (read_args iprot fuel empty_args)
          (λ args. do success ← iface args.symbol; return (reported success)) (write_result oprot)
          seqid

    unfoldable pub process_map : ProcessMap W
    process_map = (codes "get_last_sale", process_get_last_sale) ∷ []

    unfoldable pub dispatch_call : Text → ℤ → M W Bool
    unfolding process_map
    dispatch_call fname seqid = Call.dispatch_call iprot oprot process_map fname seqid
