-- ===== src/Rpc/TraceContext/Laws.antt =====
-- Reading and writing a TraceContext.
use apache_thrift_benchmarki.Prelude.{ℕ, ◌<◌, true, List, if◌then◌else◌}
use apache_thrift_benchmarki.Prelude.Int.{ℤ, pos, eq_ℤ}
use apache_thrift_benchmarki.Format.{codes}
use apache_thrift_benchmarki.Rpc.Wire.{
  Protocol, Token, Val, i64_val, text_val, struct_val, Fields, no_field, field,
}
use apache_thrift_benchmarki.Rpc.Wire.Ends.{Carries}
use apache_thrift_benchmarki.Rpc.Struct.Fields.{
  Takes, Puts, on_i64, on_text, absorb, size, case_Takes, skip_field-Takes, member_i64, member_text,
  read_struct-absorb, write_i64-Puts, write_text-Puts, write_field-last, write_field-more,
  write_struct-Puts,
}
use apache_thrift_benchmarki.Rpc.Results.Laws.{every_any}
use apache_thrift_benchmarki.Rpc.TraceContext.{
  TraceContext, trace_context_switch, read_trace_context, write_trace_context,
}

abbrev pub trace_context_after : {D : Type 0} → TraceContext → ℤ → Val D → TraceContext
trace_context_after this fid v =
    if eq_ℤ fid (pos 1)
    then on_i64 v (λ req_id. record this { req_id = req_id; isset_req_id = true }) this
    else if eq_ℤ fid (pos 2)
    then on_text v (λ baggage. record this { baggage = baggage; isset_baggage = true }) this
    else this

abbrev pub trace_context_fields : {D : Type 0} → TraceContext → Fields D
trace_context_fields this =
    field (pos 1) (i64_val this.req_id) (field (pos 2) (text_val this.baggage) no_field)

module _ {W D : Type 0} {prot : Protocol W D} {H : List (Token D) → W → Type 0}
    (carries : Carries prot H) where
  pub read_trace_context-absorb :
      (fuel : ℕ) (fs : Fields D) (this : TraceContext)
      → size fs < fuel
      → Takes H
          (struct_val fs)
          (read_trace_context prot fuel this)
          (absorb trace_context_after this fs)
  unfolding read_trace_context
  read_trace_context-absorb fuel fs this h =
      read_struct-absorb carries trace_context_after (trace_context_switch prot)
        (λ this fid v any. case_Takes v (eq_ℤ fid (pos 1)) (member_i64 carries v _ this) (
          case_Takes v (eq_ℤ fid (pos 2)) (member_text carries v _ this)
            (skip_field-Takes carries v this)))
        fuel fs this (every_any fs) h

  pub write_trace_context-Puts :
      (this : TraceContext)
      → Puts H (struct_val (trace_context_fields this)) (write_trace_context prot this)
  unfolding write_trace_context
  write_trace_context-Puts this =
      write_struct-Puts carries (codes "TraceContext") (trace_context_fields this) (
        write_field-more carries (codes "req_id") (pos 1) (i64_val this.req_id) _
          (write_i64-Puts carries this.req_id)
          (write_field-last carries (codes "baggage") (pos 2) (text_val this.baggage)
            (write_text-Puts carries this.baggage)))
