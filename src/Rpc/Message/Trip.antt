-- ===== src/Rpc/Message/Trip.antt =====
-- A call of the service Message over a connection.
use apache_thrift_benchmarki.Prelude.{ℕ, ◌<◌, refl, true, List, [], if◌then◌else◌}
use apache_thrift_benchmarki.Prelude.Int.{ℤ, pos, eq_ℤ}
use apache_thrift_benchmarki.Format.{Text, codes, same_text}
use apache_thrift_benchmarki.Rpc.Wire.{
  M, returned, Protocol, Token, Val, text_val, struct_val, Fields, no_field, field, encode,
}
use apache_thrift_benchmarki.Rpc.Wire.Ends.{Ends, Carries}
use apache_thrift_benchmarki.Rpc.Struct.Fields.{
  Takes, Puts, on_text, absorb, size, case_Takes, skip_field-Takes, member_text, read_struct-absorb,
  write_text-Puts, write_field-last, write_struct-Puts,
}
use apache_thrift_benchmarki.Rpc.Results.Laws.{every_any}
use apache_thrift_benchmarki.Rpc.Results.Calls.{text_call_answers}
use apache_thrift_benchmarki.Rpc.Call.{find}
use apache_thrift_benchmarki.Rpc.Call.Processing.{Connected, no_handler, exchange}
use apache_thrift_benchmarki.Rpc.Message.{
  Args, empty_args, args_switch, read_args, write_pargs, read_presult, write_result, send_motd,
  recv_motd, process_motd, dispatch_call,
}

-- The last text for field 1 is the value; other fields and types are passed over.
abbrev pub args_after : {D : Type 0} → Args → ℤ → Val D → Args
args_after this fid v =
    if eq_ℤ fid (pos 1)
    then on_text v (λ value. record this { value = value; isset_value = true }) this
    else this

abbrev pub args_fields : {D : Type 0} → Text → Fields D
args_fields value = field (pos 1) (text_val value) no_field

module _ {W D : Type 0} {prot : Protocol W D} {H : List (Token D) → W → Type 0}
    (carries : Carries prot H) where
  pub read_args-absorb :
      (fuel : ℕ) (fs : Fields D) (this : Args)
      → size fs < fuel
      → Takes H (struct_val fs) (read_args prot fuel this) (absorb args_after this fs)
  unfolding read_args
  read_args-absorb fuel fs this h =
      read_struct-absorb carries args_after (args_switch prot)
        (λ this fid v any.
          case_Takes v (eq_ℤ fid (pos 1)) (member_text carries v _ this)
            (skip_field-Takes carries v this))
        fuel fs this (every_any fs) h

  pub write_pargs-Puts :
      (value : Text) → Puts H (struct_val (args_fields value)) (write_pargs prot value)
  unfolding write_pargs
  write_pargs-Puts value =
      write_struct-Puts carries (codes "Message_motd_pargs") (args_fields value) (
        write_field-last carries (codes "Value") (pos 1) (text_val value)
          (write_text-Puts carries value))

module _ {S W D : Type 0} {request response : Protocol W D}
    {Holds : S → List (Token D) → List (Token D) → W → Type 0}
    (connected : Connected request response Holds) (fuel : ℕ) (enough : 1 < fuel)
    (iface : Text → M W Text) {s s' : S} (value : Text) where
  open connected use {requests}

  -- What the handler returns is what the client's call returns.
  pub motd_arrives :
      (answer : Text)
      → Ends (Holds s [] []) (iface value) (returned answer) (Holds s' [] [])
      → Ends
          (Holds s [] [])
          (exchange request
            (send_motd request value)
            (dispatch_call request response no_handler fuel iface)
            (recv_motd response fuel))
          (returned answer)
          (Holds s' [] [])
  unfolding send_motd recv_motd dispatch_call process_motd find same_text read_presult write_result
  motd_arrives answer handled =
      text_call_answers connected (codes "motd") _ _ _ fuel enough (λ args. iface args.value)
        (encode (struct_val (args_fields value))) refl
        (read_args-absorb (requests s []) fuel (args_fields value) empty_args enough)
        (write_pargs-Puts (requests s []) value) answer handled
