-- ===== src/Rpc/HelloWorld/Trip.antt =====
-- A call of the service HelloWorld over a connection.
use apache_thrift_benchmarki.Prelude.{ℕ, ◌<◌, refl, List, [], arith}
use apache_thrift_benchmarki.Format.{Text, codes, same_text}
use apache_thrift_benchmarki.Rpc.Wire.{
  M, returned, Protocol, Token, struct_val, Fields, no_field, encode,
}
use apache_thrift_benchmarki.Rpc.Wire.Ends.{Ends, Carries}
use apache_thrift_benchmarki.Rpc.Struct.Fields.{
  Takes, Puts, size, return-PutsFields, skip_field-Takes, read_struct-absorb, write_struct-Puts,
}
use apache_thrift_benchmarki.Rpc.Struct.{skip_field}
use apache_thrift_benchmarki.Rpc.Results.Laws.{every_any}
use apache_thrift_benchmarki.Rpc.Results.Calls.{text_call_answers}
use apache_thrift_benchmarki.Rpc.Call.{find}
use apache_thrift_benchmarki.Rpc.Call.Processing.{Connected, no_handler, exchange}
use apache_thrift_benchmarki.Rpc.HelloWorld.{
  read_args, write_pargs, read_presult, write_result, send_hello_world, recv_hello_world,
  process_hello_world, dispatch_call,
}

module _ {W D : Type 0} {prot : Protocol W D} {H : List (Token D) → W → Type 0}
    (carries : Carries prot H) where
  pub read_args-any :
      (fuel : ℕ) (fs : Fields D) → size fs < fuel → Takes H (struct_val fs) (read_args prot fuel) tt
  unfolding read_args
  read_args-any fuel fs h ts =
      read_struct-absorb carries (λ this fid v. tt) (λ fid ftype this. skip_field prot ftype this)
        (λ this fid v any. skip_field-Takes carries v tt) fuel fs tt (every_any fs) h ts

  pub write_pargs-Puts : Puts H (struct_val no_field) (write_pargs prot)
  unfolding write_pargs
  write_pargs-Puts =
      write_struct-Puts carries (codes "HelloWorld_hello_world_pargs") no_field
        (return-PutsFields carries)

module _ {S W D : Type 0} {request response : Protocol W D}
    {Holds : S → List (Token D) → List (Token D) → W → Type 0}
    (connected : Connected request response Holds) (fuel : ℕ) (enough : 1 < fuel) (iface : M W Text)
    {s s' : S} where
  open connected use {requests}

  -- What the handler returns is what the client's call returns.
  pub hello_world_arrives :
      (answer : Text)
      → Ends (Holds s [] []) iface (returned answer) (Holds s' [] [])
      → Ends
          (Holds s [] [])
          (exchange request
            (send_hello_world request)
            (dispatch_call request response no_handler fuel iface)
            (recv_hello_world response fuel))
          (returned answer)
          (Holds s' [] [])
  unfolding send_hello_world recv_hello_world dispatch_call process_hello_world find same_text
      read_presult write_result
  hello_world_arrives answer handled =
      text_call_answers connected (codes "hello_world") _ _ _ fuel enough (λ _. iface)
        (encode (struct_val (no_field))) refl
        (read_args-any (requests s []) fuel no_field (omega arith))
        (write_pargs-Puts (requests s [])) answer handled
