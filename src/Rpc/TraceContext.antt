-- ===== src/Rpc/TraceContext.antt =====
-- EchoServerHindsight/tthreaded/gen-cpp/echoservice_types.cpp: the struct TraceContext.
pub mod Laws
use Prim.Native.String.{String}
use apache_thrift_benchmarki.Prelude.{
  ℕ, Bool, true, false, List, [], ◌∷◌, Option, none, some, if◌then◌else◌,
}
use apache_thrift_benchmarki.Prelude.Int.{ℤ, pos, eq_ℤ}
use apache_thrift_benchmarki.Format.{Text, codes}
use apache_thrift_benchmarki.Rpc.Wire.{
  M, ◌>>=◌, ◌>>◌, return, Protocol, Part, i32, i64, text, double, TType, t_i32, t_i64, t_string,
  t_double, t_struct, t_list, t_call, t_oneway,
}
use apache_thrift_benchmarki.Rpc.Struct.{
  skip_field, if_type, member, read_struct, write_field, write_struct, read_list, write_list,
}

pub record TraceContext : Type 0 where
  pub req_id : ℤ
  pub isset_req_id : Bool
  pub baggage : Text
  pub isset_baggage : Bool

abbrev pub empty_trace_context : TraceContext
empty_trace_context = record {
  req_id = pos 0;
  isset_req_id = false;
  baggage = [];
  isset_baggage = false;
}

abbrev pub set_req_id : ℤ → TraceContext → TraceContext
set_req_id val this = record this { req_id = val }

abbrev pub set_baggage : Text → TraceContext → TraceContext
set_baggage val this = record this { baggage = val }

module _ {W D : Type 0} (prot : Protocol W D) where
  unfoldable pub trace_context_switch : ℤ → TType → TraceContext → M W TraceContext
  trace_context_switch fid ftype this =
      if eq_ℤ fid (pos 1)
      then member prot t_i64 i64 (λ req_id. record this { req_id = req_id; isset_req_id = true })
          ftype this
      else if eq_ℤ fid (pos 2)
      then member prot t_string text
          (λ baggage. record this { baggage = baggage; isset_baggage = true }) ftype this
      else skip_field prot ftype this

  unfoldable pub read_trace_context : ℕ → TraceContext → M W TraceContext
  unfolding trace_context_switch
  read_trace_context fuel this = read_struct prot trace_context_switch fuel this

  unfoldable pub write_trace_context : TraceContext → M W (Unit {0})
  write_trace_context this = write_struct prot (codes "TraceContext") (do
    write_field prot (codes "req_id") t_i64 (pos 1) (prot.write i64 [] this.req_id)
    write_field prot (codes "baggage") t_string (pos 2) (prot.write text [] this.baggage))
