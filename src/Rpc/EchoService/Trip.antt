-- ===== src/Rpc/EchoService/Trip.antt =====
-- A call of the service EchoService over a connection.
use apache_thrift_benchmarki.Prelude.{ℕ, ◌<◌, refl, true, List, [], some, if◌then◌else◌, arith}
use apache_thrift_benchmarki.Prelude.Int.{ℤ, pos, eq_ℤ}
use apache_thrift_benchmarki.Format.{Text, codes, same_text}
use apache_thrift_benchmarki.Rpc.Wire.{
  M, returned, Protocol, Token, Val, text_val, struct_val, Fields, no_field, field, type_of, encode,
}
use apache_thrift_benchmarki.Rpc.Wire.Ends.{Ends, Carries}
use apache_thrift_benchmarki.Rpc.Struct.Fields.{
  Takes, Puts, on_text, on_struct, absorb, Every, size, case_Takes, skip_field-Takes, member_text,
  read_struct-absorb, write_text-Puts, write_field-last, write_field-more, write_struct-Puts,
}
use apache_thrift_benchmarki.Rpc.Struct.Lists.{member_struct}
use apache_thrift_benchmarki.Rpc.Results.Laws.{read_void_result-any, write_void_result-Puts}
use apache_thrift_benchmarki.Rpc.TradeHistory.Trip.{Shallow, fields_small}
use apache_thrift_benchmarki.Rpc.TraceContext.{TraceContext}
use apache_thrift_benchmarki.Rpc.TraceContext.Laws.{
  trace_context_fields, trace_context_after, read_trace_context-absorb, write_trace_context-Puts,
}
use apache_thrift_benchmarki.Rpc.Call.{find}
use apache_thrift_benchmarki.Rpc.Call.Exchanges.{call_answers}
use apache_thrift_benchmarki.Rpc.Call.Processing.{Connected, no_handler, exchange}
use apache_thrift_benchmarki.Rpc.EchoService.{
  Args, empty_args, args_switch, read_args, write_pargs, read_presult, write_result, send_call,
  recv_call, process_call, dispatch_call,
}

-- The last TraceContext for field 1 goes on from the one before it; other fields and types are passed
-- over.
abbrev pub args_after : {D : Type 0} → Args → ℤ → Val D → Args
args_after this fid v =
    if eq_ℤ fid (pos 1)
    then on_struct v
        (λ fs. record this { req = absorb trace_context_after this.req fs; isset_req = true }) this
    else if eq_ℤ fid (pos 2)
    then on_text v (λ message. record this { message = message; isset_message = true }) this
    else this

-- The copy that reading makes.
abbrev pub received : TraceContext → TraceContext
received req = record req { isset_req_id = true; isset_baggage = true }

abbrev pub args_fields : {D : Type 0} → TraceContext → Text → Fields D
args_fields req message =
    field (pos 1) (struct_val (trace_context_fields req))
      (field (pos 2) (text_val message) no_field)

module _ {W D : Type 0} {prot : Protocol W D} {H : List (Token D) → W → Type 0}
    (carries : Carries prot H) where
  args_switch-after :
      (fuel : ℕ) (this : Args) (fid : ℤ) (v : Val D)
      → Shallow fuel fid v
      → Takes H v (args_switch prot fuel fid (type_of v) this) (args_after this fid v)
  unfolding args_switch
  args_switch-after fuel this fid v shallow =
      case_Takes v (eq_ℤ fid (pos 1))
        (member_struct carries v (absorb trace_context_after this.req)
          (λ req. record this { req = req; isset_req = true }) this
          (λ fs e. read_trace_context-absorb carries fuel fs this.req (shallow fs e)))
        (case_Takes v (eq_ℤ fid (pos 2)) (member_text carries v _ this)
          (skip_field-Takes carries v this))

  pub read_args-absorb :
      (fuel : ℕ) (fs : Fields D) (this : Args)
      → Every (Shallow fuel) fs
      → size fs < fuel
      → Takes H (struct_val fs) (read_args prot fuel this) (absorb args_after this fs)
  unfolding read_args
  read_args-absorb fuel fs this shallow h =
      read_struct-absorb carries args_after (args_switch prot fuel) (args_switch-after fuel) fuel fs
        this shallow h

  pub write_pargs-Puts :
      (req : TraceContext) (message : Text)
      → Puts H (struct_val (args_fields req message)) (write_pargs prot req message)
  unfolding write_pargs
  write_pargs-Puts req message =
      write_struct-Puts carries (codes "EchoService_call_pargs") (args_fields req message) (
        write_field-more carries (codes "req") (pos 1) (struct_val (trace_context_fields req)) _
          (write_trace_context-Puts carries req)
          (write_field-last carries (codes "message") (pos 2) (text_val message)
            (write_text-Puts carries message)))

text_small : {D : Type 0} (fuel : ℕ) (s : Text) (fid : ℤ) → Shallow {D = D} fuel fid (text_val s)
text_small fuel s fid gs e = cc

module _ {S W D : Type 0} {request response : Protocol W D}
    {Holds : S → List (Token D) → List (Token D) → W → Type 0}
    (connected : Connected request response Holds) (fuel : ℕ) (enough : 2 < fuel)
    (iface : TraceContext → Text → M W (Unit {0})) {s s' : S} (req : TraceContext)
    (message : Text) where
  open connected use {requests, responses}

  -- Over a connection that carries what is written to it in order, as Thrift documents of its
  -- protocols, with fuel for three rounds and without an event handler, the handler of EchoService
  -- gets the trace context, with both members marked as set, and the message that the client gives;
  -- where it returns, the call of the client returns.
  pub call_arrives :
      Ends (Holds s [] []) (iface (received req) message) (returned tt) (Holds s' [] [])
      → Ends
          (Holds s [] [])
          (exchange request
            (send_call request req message)
            (dispatch_call request response no_handler fuel iface)
            (recv_call response fuel))
          (returned tt)
          (Holds s' [] [])
  unfolding send_call recv_call dispatch_call process_call find same_text read_presult write_result
  call_arrives handled =
      call_answers connected (codes "call") _ _ (λ args. iface args.req args.message) _ _ some
        (encode (struct_val (args_fields req message))) refl
        (read_args-absorb (requests s []) fuel (args_fields req message) empty_args
          (
            fields_small fuel (trace_context_fields req) enough (pos 1),
            (text_small fuel message (pos 2), tt),
          )
          enough)
        (write_pargs-Puts (requests s []) req message) (encode (struct_val no_field)) handled
        (write_void_result-Puts (responses s' []) (codes "EchoService_call_result"))
        (read_void_result-any (responses s' []) fuel no_field (omega arith)) refl
