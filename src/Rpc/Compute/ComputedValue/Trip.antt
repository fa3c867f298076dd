-- ===== src/Rpc/Compute/ComputedValue/Trip.antt =====
-- A call of `computed_value`.
use apache_thrift_benchmarki.Prelude.{arith, some, ℕ, ◌<◌, refl, true, List, [], if◌then◌else◌}
use apache_thrift_benchmarki.Prelude.Int.{ℤ, pos, eq_ℤ}
use apache_thrift_benchmarki.Format.{Text, codes, same_text}
use apache_thrift_benchmarki.Rpc.Wire.{
  M, returned, Protocol, Token, Val, i32_val, struct_val, Fields, no_field, field, encode,
}
use apache_thrift_benchmarki.Rpc.Wire.Ends.{Ends, Carries}
use apache_thrift_benchmarki.Rpc.Struct.Fields.{
  Takes, Puts, on_i32, absorb, size, case_Takes, skip_field-Takes, member_i32, read_struct-absorb,
  write_i32-Puts, write_field-last, write_field-more, write_struct-Puts,
}
use apache_thrift_benchmarki.Rpc.Results.Laws.{
  every_any, read_void_result-any, write_void_result-Puts,
}
use apache_thrift_benchmarki.Rpc.Call.{find}
use apache_thrift_benchmarki.Rpc.Call.Exchanges.{call_answers}
use apache_thrift_benchmarki.Rpc.Call.Processing.{Connected, no_handler, exchange}
use apache_thrift_benchmarki.Rpc.Compute.ComputedValue.{
  Args, empty_args, args_switch, read_args, write_pargs, send_computed_value,
  process_computed_value, read_presult, write_result, recv_computed_value,
}
use apache_thrift_benchmarki.Rpc.Compute.{dispatch_call}

abbrev pub args_after : {D : Type 0} → Args → ℤ → Val D → Args
args_after this fid v =
    if eq_ℤ fid (pos 1)
    then on_i32 v (λ row. record this { row = row; isset_row = true }) this
    else if eq_ℤ fid (pos 2)
    then on_i32 v (λ column. record this { column = column; isset_column = true }) this
    else this

abbrev pub args_fields : {D : Type 0} → ℤ → ℤ → Fields D
args_fields row column = field (pos 1) (i32_val row) (field (pos 2) (i32_val column) no_field)

module _ {W D : Type 0} {prot : Protocol W D} {H : List (Token D) → W → Type 0}
    (carries : Carries prot H) where
  pub read_args-absorb :
      (fuel : ℕ) (fs : Fields D) (this : Args)
      → size fs < fuel
      → Takes H (struct_val fs) (read_args prot fuel this) (absorb args_after this fs)
  unfolding read_args
  read_args-absorb fuel fs this h =
      read_struct-absorb carries args_after (args_switch prot)
        (λ this fid v any. case_Takes v (eq_ℤ fid (pos 1)) (member_i32 carries v _ this) (
          case_Takes v (eq_ℤ fid (pos 2)) (member_i32 carries v _ this)
            (skip_field-Takes carries v this)))
        fuel fs this (every_any fs) h

  pub write_pargs-Puts :
      (row column : ℤ) → Puts H (struct_val (args_fields row column)) (write_pargs prot row column)
  unfolding write_pargs
  write_pargs-Puts row column =
      write_struct-Puts carries (codes "Compute_computed_value_pargs") (args_fields row column) (
        write_field-more carries (codes "row") (pos 1) (i32_val row) _ (write_i32-Puts carries row)
          (write_field-last carries (codes "column") (pos 2) (i32_val column)
            (write_i32-Puts carries column)))

module _ {S W D : Type 0} {request response : Protocol W D}
    {Holds : S → List (Token D) → List (Token D) → W → Type 0}
    (connected : Connected request response Holds) (fuel : ℕ) (enough : 2 < fuel)
    (computed : ℤ → ℤ → M W (Unit {0})) (inferred : List (List (List D)) → M W Text) {s s' : S}
    (row column : ℤ) where
  open connected use {requests, responses}

  pub computed_value_arrives :
      Ends (Holds s [] []) (computed row column) (returned tt) (Holds s' [] [])
      → Ends
          (Holds s [] [])
          (exchange request
            (send_computed_value request row column)
            (dispatch_call request response no_handler fuel computed inferred)
            (recv_computed_value response fuel))
          (returned tt)
          (Holds s' [] [])
  unfolding send_computed_value recv_computed_value dispatch_call process_computed_value find
      same_text read_presult write_result
  computed_value_arrives handled =
      call_answers connected (codes "computed_value") _ _ (λ args. computed args.row args.column) _
        _ some (encode (struct_val (args_fields row column))) refl
        (read_args-absorb (requests s []) fuel (args_fields row column) empty_args enough)
        (write_pargs-Puts (requests s []) row column) (encode (struct_val no_field)) handled
        (write_void_result-Puts (responses s' []) (codes "Compute_computed_value_result"))
        (read_void_result-any (responses s' []) fuel no_field (omega arith)) refl
