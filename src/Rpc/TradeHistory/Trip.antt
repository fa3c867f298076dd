-- ===== src/Rpc/TradeHistory/Trip.antt =====
-- A call of the service TradeHistory over a connection.
use apache_thrift_benchmarki.Prelude.{ℕ, ◌<◌, ◌≡◌, refl, true, List, [], if◌then◌else◌, arith}
use mathlib.Core.Path.{subst}
use apache_thrift_benchmarki.Prelude.Int.{ℤ, pos, eq_ℤ}
use apache_thrift_benchmarki.Format.{Text, codes, same_text}
use apache_thrift_benchmarki.Rpc.Wire.{
  M, returned, Protocol, Token, Val, text_val, struct_val, Fields, no_field, field, type_of, encode,
}
use apache_thrift_benchmarki.Rpc.Wire.Ends.{Ends, Carries, chain, return_ends}
use apache_thrift_benchmarki.Rpc.Struct.Fields.{
  Takes, Puts, on_text, on_struct, absorb, size, case_Takes, skip_field-Takes, member_text,
  read_struct-absorb, write_text-Puts, write_field-last, write_struct-Puts,
}
use apache_thrift_benchmarki.Rpc.Struct.Lists.{member_struct}
use apache_thrift_benchmarki.Rpc.Results.Laws.{every_any}
use apache_thrift_benchmarki.Rpc.TradeReport.{TradeReport}
use apache_thrift_benchmarki.Rpc.TradeReport.Laws.{
  received, report_fields, report_after, read_report-absorb, write_report-Puts,
}
use apache_thrift_benchmarki.Rpc.Call.{find}
use apache_thrift_benchmarki.Rpc.Call.Exchanges.{call_answers}
use apache_thrift_benchmarki.Rpc.Call.Processing.{Connected, no_handler, exchange}
use apache_thrift_benchmarki.Rpc.TradeHistory.{
  Args, empty_args, args_switch, read_args, write_pargs, Result, reported, report_success,
  result_switch, read_presult, write_result, send_get_last_sale, recv_get_last_sale,
  process_get_last_sale, dispatch_call,
}

abbrev pub args_after : {D : Type 0} → Args → ℤ → Val D → Args
args_after this fid v =
    if eq_ℤ fid (pos 1)
    then on_text v (λ symbol. record this { symbol = symbol; isset_symbol = true }) this
    else this

abbrev pub args_fields : {D : Type 0} → Text → Fields D
args_fields symbol = field (pos 1) (text_val symbol) no_field

abbrev pub result_after : {D : Type 0} → Result D → ℤ → Val D → Result D
result_after this fid v =
    if eq_ℤ fid (pos 0)
    then on_struct v (λ fs. reported (absorb report_after this.success fs)) this
    else this

-- A struct value has fewer fields than there is fuel.
abbrev pub Shallow : {D : Type 0} → ℕ → ℤ → Val D → Type 0
Shallow {D} fuel fid v = (fs : Fields D) → v ≡ struct_val fs → size fs < fuel

abbrev pub fields_size : {D : Type 0} → Val D → ℕ
fields_size (struct_val fs) = size fs
fields_size _ = 0

pub fields_small :
    {D : Type 0} (fuel : ℕ) (fs : Fields D)
    → size fs < fuel
    → (fid : ℤ) → Shallow fuel fid (struct_val fs)
fields_small fuel fs h fid gs e = subst (λ v. fields_size v < fuel) e h

abbrev pub result_fields : {D : Type 0} → TradeReport D → Fields D
result_fields report = field (pos 0) (struct_val (report_fields report)) no_field

module _ {W D : Type 0} {prot : Protocol W D} {H : List (Token D) → W → Type 0}
    (carries : Carries prot H) where
  pub read_args-absorb :
      (fuel : ℕ) (fs : Fields D) (this : Args)
      → size fs < fuel
      → Takes H (struct_val fs) (read_args prot fuel this) (absorb args_after this fs)
  unfolding read_args
  read_args-absorb fuel fs this h =
      read_struct-absorb carries args_after (args_switch prot)
        (λ this fid v any.
          case_Takes v (eq_ℤ fid (pos 1)) (member_text carries v _ this)
            (skip_field-Takes carries v this))
        fuel fs this (every_any fs) h

  pub write_pargs-Puts :
      (symbol : Text) → Puts H (struct_val (args_fields symbol)) (write_pargs prot symbol)
  unfolding write_pargs
  write_pargs-Puts symbol =
      write_struct-Puts carries (codes "TradeHistory_get_last_sale_pargs") (args_fields symbol) (
        write_field-last carries (codes "Symbol") (pos 1) (text_val symbol)
          (write_text-Puts carries symbol))

  result_switch-after :
      (fuel : ℕ) (this : Result D) (fid : ℤ) (v : Val D)
      → Shallow fuel fid v
      → Takes H v (result_switch prot fuel fid (type_of v) this) (result_after this fid v)
  unfolding result_switch
  result_switch-after fuel this fid v shallow =
      case_Takes v (eq_ℤ fid (pos 0))
        (member_struct carries v (absorb report_after this.success) reported this
          (λ fs e. read_report-absorb carries fuel fs this.success (shallow fs e)))
        (skip_field-Takes carries v this)

  pub write_result-Puts :
      (report : TradeReport D)
      → Puts H (struct_val (result_fields report)) (write_result prot (reported report))
  unfolding write_result
  write_result-Puts report =
      write_struct-Puts carries (codes "TradeHistory_get_last_sale_result") (result_fields report) (
        write_field-last carries (codes "success") (pos 0) (struct_val (report_fields report))
          (write_report-Puts carries report))

  pub read_presult-absorb :
      (fuel : ℕ) (report : TradeReport D) (this : Result D)
      → 4 < fuel
      → Takes H
          (struct_val (result_fields report))
          (read_presult prot fuel this)
          (absorb result_after this (result_fields report))
  unfolding read_presult
  read_presult-absorb fuel report this h =
      read_struct-absorb carries result_after (result_switch prot fuel) (result_switch-after fuel)
        fuel (result_fields report) this (fields_small fuel (report_fields report) h (pos 0), tt)
        (omega arith)

module _ {S W D : Type 0} {request response : Protocol W D}
    {Holds : S → List (Token D) → List (Token D) → W → Type 0}
    (connected : Connected request response Holds) (fuel : ℕ) (enough : 4 < fuel)
    (iface : Text → M W (TradeReport D)) {s s' : S} (symbol : Text) (out : TradeReport D) where
  open connected use {requests, responses}

  pub report_arrives :
      (report : TradeReport D)
      → Ends (Holds s [] []) (iface symbol) (returned report) (Holds s' [] [])
      → Ends
          (Holds s [] [])
          (exchange request
            (send_get_last_sale request symbol)
            (dispatch_call request response no_handler fuel iface)
            (recv_get_last_sale response fuel out))
          (returned (received report))
          (Holds s' [] [])
  unfolding send_get_last_sale recv_get_last_sale dispatch_call process_get_last_sale find same_text
  report_arrives report handled =
      call_answers connected (codes "get_last_sale") _ _ _ _ _ report_success
        (encode (struct_val (args_fields symbol))) refl
        (read_args-absorb (requests s []) fuel (args_fields symbol) empty_args (omega arith))
        (write_pargs-Puts (requests s []) symbol) (encode (struct_val (result_fields report)))
        (chain _ handled (return_ends _)) (write_result-Puts (responses s' []) report)
        (read_presult-absorb (responses s' []) fuel report _ enough) refl
