-- ===== src/Rpc/UniqueIdAsync/Trip.antt =====
-- A call of the service UniqueIDAsync, which nobody answers.
use apache_thrift_benchmarki.Prelude.{ℕ, ◌<◌, refl, ◌⊎◌, true, List, [], if◌then◌else◌}
use apache_thrift_benchmarki.Prelude.Int.{ℤ, pos, eq_ℤ}
use apache_thrift_benchmarki.Format.{codes, same_text}
use apache_thrift_benchmarki.Rpc.Wire.{
  M, return, returned, Exception, Protocol, t_oneway, Token, Val, i64_val, struct_val, Fields,
  no_field, field, encode,
}
use apache_thrift_benchmarki.Rpc.Wire.Ends.{Ends, Carries, return_ends}
use apache_thrift_benchmarki.Rpc.Struct.Fields.{
  Takes, Puts, on_i64, absorb, size, case_Takes, skip_field-Takes, member_i64, read_struct-absorb,
  write_i64-Puts, write_field-last, write_struct-Puts,
}
use apache_thrift_benchmarki.Rpc.Results.Laws.{every_any}
use apache_thrift_benchmarki.Rpc.Call.{find}
use apache_thrift_benchmarki.Rpc.Call.Processing.{
  Connected, no_handler, exchange, exchange_ends, dispatch_call-found, process_oneway-silent,
  outcome,
}
use apache_thrift_benchmarki.Rpc.UniqueIdAsync.{
  Args, empty_args, args_switch, read_args, write_pargs, send_compute_unique_id, compute_unique_id,
  process_compute_unique_id, dispatch_call,
}

abbrev pub args_after : {D : Type 0} → Args → ℤ → Val D → Args
args_after this fid v =
    if eq_ℤ fid (pos 1)
    then on_i64 v (λ id. record this { id = id; isset_id = true }) this
    else this

abbrev pub args_fields : {D : Type 0} → ℤ → Fields D
args_fields id = field (pos 1) (i64_val id) no_field

module _ {W D : Type 0} {prot : Protocol W D} {H : List (Token D) → W → Type 0}
    (carries : Carries prot H) where
  pub read_args-absorb :
      (fuel : ℕ) (fs : Fields D) (this : Args)
      → size fs < fuel
      → Takes H (struct_val fs) (read_args prot fuel this) (absorb args_after this fs)
  unfolding read_args
  read_args-absorb fuel fs this h =
      read_struct-absorb carries args_after (args_switch prot)
        (λ this fid v any.
          case_Takes v (eq_ℤ fid (pos 1)) (member_i64 carries v _ this)
            (skip_field-Takes carries v this))
        fuel fs this (every_any fs) h

  pub write_pargs-Puts : (id : ℤ) → Puts H (struct_val (args_fields id)) (write_pargs prot id)
  unfolding write_pargs
  write_pargs-Puts id =
      write_struct-Puts carries (codes "UniqueIDAsync_compute_unique_id_pargs") (args_fields id)
        (write_field-last carries (codes "id") (pos 1) (i64_val id) (write_i64-Puts carries id))

module _ {S W D : Type 0} {request response : Protocol W D}
    {Holds : S → List (Token D) → List (Token D) → W → Type 0}
    (connected : Connected request response Holds) (fuel : ℕ) (enough : 1 < fuel)
    (iface : ℤ → M W (Unit {0})) {s s' : S} (id : ℤ) where
  open connected use {requests}

  -- A call of UniqueIDAsync returns to the client and puts nothing on the way back, whether the
  -- handler returns or throws: the client never learns of the exception.
  pub nothing_returns :
      (o : Unit {0} ⊎ Exception)
      → Ends (Holds s [] []) (iface id) (outcome o) (Holds s' [] [])
      → Ends
          (Holds s [] [])
          (exchange request
            (compute_unique_id response request id)
            (dispatch_call request response no_handler fuel iface)
            (return tt))
          (returned tt)
          (Holds s' [] [])
  unfolding compute_unique_id send_compute_unique_id dispatch_call process_compute_unique_id find
      same_text
  nothing_returns o handled =
      exchange_ends connected _ (codes "compute_unique_id") t_oneway (pos 0)
        (encode (struct_val (args_fields id))) (write_pargs-Puts (requests s []) id)
        (dispatch_call-found connected _ (codes "compute_unique_id") (pos 0) refl (
          process_oneway-silent connected _ (λ args. iface args.id) (pos 0)
            (encode (struct_val (args_fields id)))
            (read_args-absorb (requests s []) fuel (args_fields id) empty_args enough) o handled))
        (return_ends tt)
