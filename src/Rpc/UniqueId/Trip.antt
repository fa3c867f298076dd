-- ===== src/Rpc/UniqueId/Trip.antt =====
-- A call of the service UniqueID over a connection.
use apache_thrift_benchmarki.Prelude.{ℕ, ◌<◌, refl, ◌⊎◌, inl, inr, true, List, [], if◌then◌else◌}
use apache_thrift_benchmarki.Prelude.Int.{ℤ, pos, eq_ℤ}
use apache_thrift_benchmarki.Format.{Text, codes, same_text}
use apache_thrift_benchmarki.Rpc.Wire.{
  M, Exception, Protocol, Token, Val, i32_val, struct_val, Fields, no_field, field, encode,
}
use apache_thrift_benchmarki.Rpc.Wire.Ends.{Ends, Carries}
use apache_thrift_benchmarki.Rpc.Struct.Fields.{
  Takes, Puts, on_i32, absorb, size, case_Takes, skip_field-Takes, member_i32, read_struct-absorb,
  write_i32-Puts, write_field-last, write_struct-Puts,
}
use apache_thrift_benchmarki.Rpc.Results.Laws.{every_any}
use apache_thrift_benchmarki.Rpc.Results.Calls.{text_call_answers, text_call_fails}
use apache_thrift_benchmarki.Rpc.Call.{find}
use apache_thrift_benchmarki.Rpc.Call.Processing.{
  Connected, no_handler, outcome, client_outcome, exchange,
}
use apache_thrift_benchmarki.Rpc.UniqueId.{
  Args, empty_args, args_switch, read_args, write_pargs, read_presult, write_result,
  send_compute_unique_id, recv_compute_unique_id, process_compute_unique_id, dispatch_call,
}

-- The last i32 for field 1 is the id; other fields and types are passed over.
abbrev pub args_after : {D : Type 0} → Args → ℤ → Val D → Args
args_after this fid v =
    if eq_ℤ fid (pos 1)
    then on_i32 v (λ id. record this { id = id; isset_id = true }) this
    else this

abbrev pub args_fields : {D : Type 0} → ℤ → Fields D
args_fields id = field (pos 1) (i32_val id) no_field

module _ {W D : Type 0} {prot : Protocol W D} {H : List (Token D) → W → Type 0}
    (carries : Carries prot H) where
  pub read_args-absorb :
      (fuel : ℕ) (fs : Fields D) (this : Args)
      → size fs < fuel
      → Takes H (struct_val fs) (read_args prot fuel this) (absorb args_after this fs)
  unfolding read_args
  read_args-absorb fuel fs this h =
      read_struct-absorb carries args_after (args_switch prot)
        (λ this fid v any.
          case_Takes v (eq_ℤ fid (pos 1)) (member_i32 carries v _ this)
            (skip_field-Takes carries v this))
        fuel fs this (every_any fs) h

  pub write_pargs-Puts : (id : ℤ) → Puts H (struct_val (args_fields id)) (write_pargs prot id)
  unfolding write_pargs
  write_pargs-Puts id =
      write_struct-Puts carries (codes "UniqueID_compute_unique_id_pargs") (args_fields id)
        (write_field-last carries (codes "id") (pos 1) (i32_val id) (write_i32-Puts carries id))

module _ {S W D : Type 0} {request response : Protocol W D}
    {Holds : S → List (Token D) → List (Token D) → W → Type 0}
    (connected : Connected request response Holds) (fuel : ℕ) (enough : 1 < fuel)
    (iface : ℤ → M W Text) {s s' : S} (id : ℤ) where
  open connected use {requests}

  -- Over a connection that carries what is written to it in order, as Thrift documents of its
  -- protocols, with fuel for two rounds and without an event handler, whatever the handler of
  -- UniqueID returns for the id that the client gives is what the call of the client returns, and
  -- where the handler throws the client throws an application exception with its text; request and
  -- response are used up, and the handler ran once.
  pub unique_id_arrives :
      (o : Text ⊎ Exception)
      → Ends (Holds s [] []) (iface id) (outcome o) (Holds s' [] [])
      → Ends
          (Holds s [] [])
          (exchange request
            (send_compute_unique_id request id)
            (dispatch_call request response no_handler fuel iface)
            (recv_compute_unique_id response fuel))
          (client_outcome response o)
          (Holds s' [] [])
  unfolding send_compute_unique_id recv_compute_unique_id dispatch_call process_compute_unique_id
      find same_text read_presult write_result
  unique_id_arrives (inl answer) handled =
      text_call_answers connected (codes "compute_unique_id") _ _ _ fuel enough
        (λ args. iface args.id) (encode (struct_val (args_fields id))) refl
        (read_args-absorb (requests s []) fuel (args_fields id) empty_args enough)
        (write_pargs-Puts (requests s []) id) answer handled
  unique_id_arrives (inr e) handled =
      text_call_fails connected (codes "compute_unique_id") _ _ _ fuel enough
        (λ args. iface args.id) (encode (struct_val (args_fields id))) refl
        (read_args-absorb (requests s []) fuel (args_fields id) empty_args enough)
        (write_pargs-Puts (requests s []) id) e handled
