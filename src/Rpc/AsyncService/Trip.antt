-- ===== src/Rpc/AsyncService/Trip.antt =====
-- A call of the service AsyncService, which nobody answers.
use apache_thrift_benchmarki.Prelude.{ℕ, ◌<◌, refl, ◌⊎◌, true, List, [], if◌then◌else◌}
use apache_thrift_benchmarki.Prelude.Int.{ℤ, pos, eq_ℤ}
use apache_thrift_benchmarki.Format.{codes, same_text}
use apache_thrift_benchmarki.Rpc.Wire.{
  M, return, returned, Exception, Protocol, t_oneway, Token, Val, i64_val, struct_val, Fields,
  no_field, field, encode,
}
use apache_thrift_benchmarki.Rpc.Wire.Ends.{Ends, Carries, return_ends}
use apache_thrift_benchmarki.Rpc.Struct.Fields.{
  Takes, Puts, on_i64, absorb, size, case_Takes, skip_field-Takes, member_i64, read_struct-absorb,
  write_i64-Puts, write_field-last, write_field-more, write_struct-Puts,
}
use apache_thrift_benchmarki.Rpc.Results.Laws.{every_any}
use apache_thrift_benchmarki.Rpc.Call.{find}
use apache_thrift_benchmarki.Rpc.Call.Processing.{
  Connected, no_handler, exchange, exchange_ends, dispatch_call-found, process_oneway-silent,
  outcome,
}
use apache_thrift_benchmarki.Rpc.AsyncService.{
  Args, empty_args, args_switch, read_args, write_pargs, send_compute_result, compute_result,
  process_compute_result, dispatch_call,
}

abbrev pub args_after : {D : Type 0} → Args → ℤ → Val D → Args
args_after this fid v =
    if eq_ℤ fid (pos 1)
    then on_i64 v (λ num_1. record this { num_1 = num_1; isset_num_1 = true }) this
    else if eq_ℤ fid (pos 2)
    then on_i64 v (λ num_2. record this { num_2 = num_2; isset_num_2 = true }) this
    else this

abbrev pub args_fields : {D : Type 0} → ℤ → ℤ → Fields D
args_fields num_1 num_2 = field (pos 1) (i64_val num_1) (field (pos 2) (i64_val num_2) no_field)

module _ {W D : Type 0} {prot : Protocol W D} {H : List (Token D) → W → Type 0}
    (carries : Carries prot H) where
  pub read_args-absorb :
      (fuel : ℕ) (fs : Fields D) (this : Args)
      → size fs < fuel
      → Takes H (struct_val fs) (read_args prot fuel this) (absorb args_after this fs)
  unfolding read_args
  read_args-absorb fuel fs this h =
      read_struct-absorb carries args_after (args_switch prot)
        (λ this fid v any. case_Takes v (eq_ℤ fid (pos 1)) (member_i64 carries v _ this) (
          case_Takes v (eq_ℤ fid (pos 2)) (member_i64 carries v _ this)
            (skip_field-Takes carries v this)))
        fuel fs this (every_any fs) h

  pub write_pargs-Puts :
      (num_1 num_2 : ℤ)
      → Puts H (struct_val (args_fields num_1 num_2)) (write_pargs prot num_1 num_2)
  unfolding write_pargs
  write_pargs-Puts num_1 num_2 =
      write_struct-Puts carries (codes "AsyncService_compute_result_pargs")
        (args_fields num_1 num_2)
        (write_field-more carries (codes "num_1") (pos 1) (i64_val num_1) _
          (write_i64-Puts carries num_1)
          (write_field-last carries (codes "num_2") (pos 2) (i64_val num_2)
            (write_i64-Puts carries num_2)))

module _ {S W D : Type 0} {request response : Protocol W D}
    {Holds : S → List (Token D) → List (Token D) → W → Type 0}
    (connected : Connected request response Holds) (fuel : ℕ) (enough : 2 < fuel)
    (iface : ℤ → ℤ → M W (Unit {0})) {s s' : S} (num_1 num_2 : ℤ) where
  open connected use {requests}

  pub nothing_returns :
      (o : Unit {0} ⊎ Exception)
      → Ends (Holds s [] []) (iface num_1 num_2) (outcome o) (Holds s' [] [])
      → Ends
          (Holds s [] [])
          (exchange request
            (compute_result response request num_1 num_2)
            (dispatch_call request response no_handler fuel iface)
            (return tt))
          (returned tt)
          (Holds s' [] [])
  unfolding compute_result send_compute_result dispatch_call process_compute_result find same_text
  nothing_returns o handled =
      exchange_ends connected _ (codes "compute_result") t_oneway (pos 0)
        (encode (struct_val (args_fields num_1 num_2)))
        (write_pargs-Puts (requests s []) num_1 num_2)
        (dispatch_call-found connected _ (codes "compute_result") (pos 0) refl (
          process_oneway-silent connected _ (λ args. iface args.num_1 args.num_2) (pos 0)
            (encode (struct_val (args_fields num_1 num_2)))
            (read_args-absorb (requests s []) fuel (args_fields num_1 num_2) empty_args enough) o
            handled))
        (return_ends tt)
