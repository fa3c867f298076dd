-- ===== src/Rpc/Results/Calls.antt =====
-- A call over a connection whose result is a text.
use apache_thrift_benchmarki.Prelude.{ℕ, ◌<◌, ◌≡◌, refl, List, [], some}
use apache_thrift_benchmarki.Prelude.Int.{pos}
use apache_thrift_benchmarki.Format.{Text}
use apache_thrift_benchmarki.Rpc.Wire.{
  M, ◌>>=◌, return, returned, thrown, Exception, application, unknown, Protocol, t_call, Token,
  struct_val, encode,
}
use apache_thrift_benchmarki.Rpc.Wire.Ends.{Ends, chain, >>=-thrown, return_ends}
use apache_thrift_benchmarki.Rpc.Results.{
  empty_result, with_success, text_success, read_text_result, write_text_result,
}
use apache_thrift_benchmarki.Rpc.Results.Laws.{
  text_result_fields, read_text_result-absorb, write_text_result-Puts,
}
use apache_thrift_benchmarki.Rpc.Call.{ProcessMap, find, send, recv, dispatch_call, process}
use apache_thrift_benchmarki.Rpc.Call.Messages.{Tokens, Reading, Writing}
use apache_thrift_benchmarki.Rpc.Call.Exchanges.{call_answers, call_fails}
use apache_thrift_benchmarki.Rpc.Call.Processing.{Connected, no_handler, exchange}

module _ {S W D : Type 0} {request response : Protocol W D}
    {Holds : S → List (Token D) → List (Token D) → W → Type 0}
    (connected : Connected request response Holds) (name : Text) {s : S}
    {body : M W (Unit {0})} where
  open connected use {responses}

  module _ {A : Type 0} (method result_name : Text) (process_map : ProcessMap W) (fuel : ℕ)
      (enough : 1 < fuel) {read_args : M W A} (call : A → M W Text) {args : A} {s' : S}
      (args_tokens : Tokens D)
      (found : find process_map name
        ≡ some (
            process request response no_handler method name read_args
              (λ a. call a >>= λ success. return (with_success success))
              (write_text_result response result_name)))
      (reading : Reading (λ q. Holds s q []) args_tokens read_args args)
      (writing : Writing (λ q. Holds s q []) args_tokens body) where
    pub text_call_answers :
        (answer : Text)
        → Ends (Holds s [] []) (call args) (returned answer) (Holds s' [] [])
        → Ends
            (Holds s [] [])
            (exchange request
              (send request name t_call (pos 0) body)
              (dispatch_call request response process_map)
              (recv response name (read_text_result response fuel empty_result) text_success))
            (returned answer)
            (Holds s' [] [])
    text_call_answers answer handled =
        call_answers connected name method process_map _ _ _ text_success args_tokens found reading
          writing (encode (struct_val (text_result_fields (with_success answer))))
          (chain _ handled (return_ends _))
          (write_text_result-Puts (responses s' []) result_name (with_success answer))
          (read_text_result-absorb (responses s' []) fuel (text_result_fields (with_success answer))
            empty_result enough)
          refl

    pub text_call_fails :
        (e : Exception)
        → Ends (Holds s [] []) (call args) (thrown e) (Holds s' [] [])
        → Ends
            (Holds s [] [])
            (exchange request
              (send request name t_call (pos 0) body)
              (dispatch_call request response process_map)
              (recv response name (read_text_result response fuel empty_result) text_success))
            (thrown (application unknown (response.what e)))
            (Holds s' [] [])
    text_call_fails e handled =
        call_fails connected name method process_map _ _ _ text_success args_tokens found reading
          writing e (>>=-thrown _ handled)
