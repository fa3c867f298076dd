-- ===== src/Rpc/Call/Exchanges.antt =====
-- A call over a connection: an answer, a failure, and a method that the processor does not have.
use mathlib.Core.Path.{subst}
use apache_thrift_benchmarki.Prelude.{ap, ◌≡◌, List, [], ◌++◌, Option, none, some}
use apache_thrift_benchmarki.Prelude.Int.{pos}
use apache_thrift_benchmarki.Format.{Text, codes}
use apache_thrift_benchmarki.Rpc.Wire.{
  M, returned, thrown, Exception, application, unknown, unknown_method, Protocol, t_call, t_reply,
  Token, struct_val, Fields, encode,
}
use apache_thrift_benchmarki.Rpc.Wire.Ends.{Ends}
use apache_thrift_benchmarki.Rpc.Call.{ProcessMap, find, send, recv, dispatch_call, process}
use apache_thrift_benchmarki.Rpc.Call.Messages.{
  Tokens, Reading, Writing, message, reply_outcome, recv_exception, recv_reply,
}
use apache_thrift_benchmarki.Rpc.Call.Processing.{
  Connected, no_handler, exchange, exchange_ends, dispatch_call-found, dispatch_call-unknown,
  process_reply, process_failure,
}

module _ {S W D : Type 0} {request response : Protocol W D}
    {Holds : S → List (Token D) → List (Token D) → W → Type 0}
    (connected : Connected request response Holds) (name : Text) {s : S}
    {body : M W (Unit {0})} where
  open connected use {requests, responses}

  -- A call of a method that is not in the map of the processor ends for the client with an
  -- UNKNOWN_METHOD exception that names the method; its arguments are passed over and the state of
  -- the handler is as before.
  pub unknown_method_arrives :
      {R A : Type 0} (process_map : ProcessMap W) (read_result : M W R) (success : R → Option A)
      (fs : Fields D)
      → find process_map name ≡ none
      → Writing (λ q. Holds s q []) (encode (struct_val fs)) body
      → Ends
          (Holds s [] [])
          (exchange request
            (send request name t_call (pos 0) body)
            (dispatch_call request response process_map)
            (recv response name read_result success))
          (thrown
            (application unknown_method (codes "Invalid method name: '" ++ (name ++ codes "'"))))
          (Holds s [] [])
  unknown_method_arrives process_map read_result success fs missing writing =
      exchange_ends connected _ name t_call (pos 0) (encode (struct_val fs)) writing
        (dispatch_call-unknown connected process_map name (pos 0) s fs missing)
        (recv_exception (responses s []) name read_result success name (pos 0) unknown_method _)

  module _ {A R R' B : Type 0} (method : Text) (process_map : ProcessMap W) {read_args : M W A}
      (call : A → M W R) (write_result : R → M W (Unit {0})) (read_result : M W R')
      (success : R' → Option B) {args : A} {s' : S} (args_tokens : Tokens D)
      (found : find process_map name
        ≡ some (process request response no_handler method name read_args call write_result))
      (reading : Reading (λ q. Holds s q []) args_tokens read_args args)
      (writing : Writing (λ q. Holds s q []) args_tokens body) where
    pub call_answers :
        {result : R} {result' : R'} {answer : B} (result_tokens : Tokens D)
        → Ends (Holds s [] []) (call args) (returned result) (Holds s' [] [])
        → Writing (Holds s' []) result_tokens (write_result result)
        → Reading (Holds s' []) result_tokens read_result result'
        → success result' ≡ some answer
        → Ends
            (Holds s [] [])
            (exchange request
              (send request name t_call (pos 0) body)
              (dispatch_call request response process_map)
              (recv response name read_result success))
            (returned answer)
            (Holds s' [] [])
    call_answers result_tokens handled written read succeeds =
        exchange_ends connected _ name t_call (pos 0) args_tokens writing
          (dispatch_call-found connected process_map name (pos 0) found (
            process_reply connected method name call write_result (pos 0) args_tokens reading
              result_tokens handled written))
          (subst
            (λ o.
              Ends (Holds s' [] (message name t_reply (pos 0) result_tokens))
                (recv response name read_result success) o (Holds s' [] []))
            (ap (reply_outcome name) succeeds)
            (recv_reply (responses s' []) name read_result success (pos 0) result_tokens read))

    pub call_fails :
        (e : Exception)
        → Ends (Holds s [] []) (call args) (thrown e) (Holds s' [] [])
        → Ends
            (Holds s [] [])
            (exchange request
              (send request name t_call (pos 0) body)
              (dispatch_call request response process_map)
              (recv response name read_result success))
            (thrown (application unknown (response.what e)))
            (Holds s' [] [])
    call_fails e handled =
        exchange_ends connected _ name t_call (pos 0) args_tokens writing
          (dispatch_call-found connected process_map name (pos 0) found (
            process_failure connected method name call write_result (pos 0) args_tokens reading
              handled))
          (recv_exception (responses s' []) name read_result success name (pos 0) unknown
            (response.what e))
