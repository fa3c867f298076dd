-- ===== src/Rpc/Call/Processing.antt =====
-- A call from the client over the processor to the handler and back, on one connection.
use apache_thrift_benchmarki.Prelude.{
  ◌≡◌, ◌⊎◌, refl, ap, ◌∙◌, Bool, true, List, [], ◌∷◌, ◌++◌, Option, none, some, inl, inr,
}
use apache_thrift_benchmarki.Prelude.Int.{ℤ}
use apache_thrift_benchmarki.Format.{Text, codes}
use apache_thrift_benchmarki.Rpc.Wire.{
  M, ◌>>=◌, ◌>>◌, return, throw, try_catch, finally, cleaned, Outcome, returned, thrown, endless,
  Exception, application, unknown, unknown_method, Protocol, message_begin, message_end,
  TMessageType, t_reply, t_exception, Token, token, struct_val, Fields, encode,
}
use apache_thrift_benchmarki.Rpc.Wire.Ends.{
  Ends, Carries, chain, return_ends, try_catch-returned, try_catch-thrown,
}
use apache_thrift_benchmarki.Rpc.Call.{
  EventHandler, ProcessMap, send, find, dispatch_call, process, process_oneway, fire,
  async_complete, handler_error,
}
use apache_thrift_benchmarki.Rpc.Call.Messages.{
  Tokens, message, failure, Reading, Writing, end_message_ends, drop_message_ends, failure-Writing,
  send_ends,
}

-- A request and a response protocol on one connection: in the states `Holds s q r` the handler's state
-- is s, q is on its way to the processor and r to the client.
pub record Connected {S W D : Type 0} (request response : Protocol W D)
    (Holds : S → List (Token D) → List (Token D) → W → Type 0) : Type 0 where
  pub requests : (s : S) (r : List (Token D)) → Carries request (λ q. Holds s q r)
  pub responses : (s : S) (q : List (Token D)) → Carries response (Holds s q)

abbrev pub outcome : {A : Type 0} → A ⊎ Exception → Outcome A
outcome (inl a) = returned a
outcome (inr e) = thrown e

-- How a call ends for the client whose handler ends so: an exception comes as one of Thrift's, with the
-- text of the other.
abbrev pub client_outcome : {W D A : Type 0} → Protocol W D → A ⊎ Exception → Outcome A
client_outcome prot (inl a) = returned a
client_outcome prot (inr e) = thrown (application unknown (prot.what e))

-- No program of the repository sets an event handler of a processor.
abbrev pub no_handler : {W : Type 0} → Option (EventHandler W (Unit {0}))
no_handler = none

-- The client sends, Thrift's `TDispatchProcessor` reads the head of the message and calls `dispatchCall`,
-- and the client receives.
unfoldable pub exchange :
    {W D A : Type 0} → Protocol W D → M W (Unit {0}) → (Text → ℤ → M W Bool) → M W A → M W A
exchange request sending dispatching receiving = do
  sending
  head ← request.read message_begin
  _ ← dispatching head.0 head.2
  receiving

untouched : {W A : Type 0} (o : Outcome A) (w : W) → cleaned (return tt) (o, w) ≡ (o, w)
unfolding ◌>>=◌ return throw
untouched (returned a) w = refl
untouched (thrown e) w = refl
untouched endless w = refl

finally_ends :
    {W A : Type 0} {P Q : W → Type 0} {m : M W A} {o : Outcome A}
    → Ends P m o Q
    → Ends P (finally (return tt) m) o Q
unfolding finally
finally_ends {W} {A} {o = o} ends = record {
  at = λ w p. let (w', e, q) = ends.at w p in (w', ap (cleaned (return tt)) e ∙ untouched o w', q);
}

module _ {S W D : Type 0} {request response : Protocol W D}
    {Holds : S → List (Token D) → List (Token D) → W → Type 0}
    (connected : Connected request response Holds) where
  open connected use {requests, responses}

  module _ {A R : Type 0} (method name : Text) {read_args : M W A} (call : A → M W R)
      (write_result : R → M W (Unit {0})) (seqid : ℤ) {s s' : S} {args : A} (args_tokens : Tokens D)
      (reading : Reading (λ q. Holds s q []) args_tokens read_args args) where
    pub process_reply :
        {result : R} (result_tokens : Tokens D)
        → Ends (Holds s [] []) (call args) (returned result) (Holds s' [] [])
        → Writing (Holds s' []) result_tokens (write_result result)
        → Ends
            (Holds s (args_tokens (token message_end tt ∷ [])) [])
            (process request response no_handler method name read_args call write_result seqid)
            (returned tt)
            (Holds s' [] (message name t_reply seqid result_tokens))
    unfolding process
    process_reply result_tokens handled writing = chain _ (return_ends none) (
        finally_ends (
          chain _ (return_ends tt) (
            chain _ (reading _) (
              chain _ (end_message_ends (requests s []) []) (
                chain _ (return_ends tt) (
                  chain _ (try_catch-returned handled) (
                    chain _ (return_ends tt) (
                      chain _ (send_ends (responses s' []) name t_reply seqid result_tokens writing)
                        (return_ends tt)))))))))

    pub process_failure :
        {e : Exception}
        → Ends (Holds s [] []) (call args) (thrown e) (Holds s' [] [])
        → Ends
            (Holds s (args_tokens (token message_end tt ∷ [])) [])
            (process request response no_handler method name read_args call write_result seqid)
            (returned tt)
            (Holds s' [] (message name t_exception seqid (failure unknown (response.what e))))
    unfolding process
    process_failure {e} handled = chain _ (return_ends none) (
        finally_ends (
          chain _ (return_ends tt) (
            chain _ (reading _) (
              chain _ (end_message_ends (requests s []) []) (
                chain _ (return_ends tt) (
                  chain _ (try_catch-thrown handled) (
                    chain _ (return_ends tt) (
                      send_ends (responses s' []) name t_exception seqid _
                        (failure-Writing (responses s' []) unknown (response.what e))))))))))

  module _ {A : Type 0} (method : Text) {read_args : M W A} (call : A → M W (Unit {0})) (seqid : ℤ)
      {s s' : S} {args : A} (args_tokens : Tokens D)
      (reading : Reading (λ q. Holds s q []) args_tokens read_args args) where
    -- Nothing is sent back, whether the handler returns or throws.
    pub process_oneway-silent :
        (o : Unit {0} ⊎ Exception)
        → Ends (Holds s [] []) (call args) (outcome o) (Holds s' [] [])
        → Ends
            (Holds s (args_tokens (token message_end tt ∷ [])) [])
            (process_oneway request response no_handler method read_args call seqid)
            (returned tt)
            (Holds s' [] [])
    unfolding process_oneway
    process_oneway-silent o handled = chain _ (return_ends none) (
        finally_ends (
          chain _ (return_ends tt) (
            chain _ (reading _) (
              chain _ (end_message_ends (requests s []) [])
                (chain _ (return_ends tt) (last o handled))))))
      where
        last :
            (o : Unit {0} ⊎ Exception)
            → Ends (Holds s [] []) (call args) (outcome o) (Holds s' [] [])
            → Ends
                (Holds s [] [])
                (try_catch (call args) >>= λ answer. elim answer [
                  | inl _ ↦ fire no_handler async_complete none method
                  | inr e ↦ fire no_handler handler_error none method
                ])
                (returned tt)
                (Holds s' [] [])
        last (inl done) handled = chain _ (try_catch-returned handled) (return_ends tt)
        last (inr e) handled = chain _ (try_catch-thrown handled) (return_ends tt)

  pub dispatch_call-found :
      {P Q : W → Type 0} {method : ℤ → M W (Unit {0})} (process_map : ProcessMap W) (fname : Text)
      (seqid : ℤ)
      → find process_map fname ≡ some method
      → Ends P (method seqid) (returned tt) Q
      → Ends P (dispatch_call request response process_map fname seqid) (returned true) Q
  unfolding dispatch_call
  dispatch_call-found process_map fname seqid found ends =
      rw (found, dispatch_call) (chain _ ends (return_ends true))

  pub dispatch_call-unknown :
      (process_map : ProcessMap W) (fname : Text) (seqid : ℤ) (s : S) (fs : Fields D)
      → find process_map fname ≡ none
      → Ends
          (Holds s (encode (struct_val fs) (token message_end tt ∷ [])) [])
          (dispatch_call request response process_map fname seqid)
          (returned true)
          (Holds s [] (
            message fname t_exception seqid
              (failure unknown_method (codes "Invalid method name: '" ++ (fname ++ codes "'")))))
  unfolding dispatch_call
  dispatch_call-unknown process_map fname seqid s fs missing =
      rw (missing, dispatch_call)
        (chain _ (drop_message_ends (requests s []) fs []) (
          chain _
            (send_ends (responses s []) fname t_exception seqid _
              (failure-Writing (responses s []) unknown_method _))
            (return_ends true)))

  pub exchange_ends :
      {A : Type 0} {o : Outcome A} {body : M W (Unit {0})} {receiving : M W A} {s s' : S}
      {r : List (Token D)} (dispatching : Text → ℤ → M W Bool) (name : Text) (mtype : TMessageType)
      (seqid : ℤ) (args_tokens : Tokens D)
      → Writing (λ q. Holds s q []) args_tokens body
      → Ends
          (Holds s (args_tokens (token message_end tt ∷ [])) [])
          (dispatching name seqid)
          (returned true)
          (Holds s' [] r)
      → Ends (Holds s' [] r) receiving o (Holds s' [] [])
      → Ends
          (Holds s [] [])
          (exchange request (send request name mtype seqid body) dispatching receiving)
          o
          (Holds s' [] [])
  unfolding exchange
  exchange_ends {s = s} dispatching name mtype seqid args_tokens writing dispatched received =
      chain _ (send_ends (requests s []) name mtype seqid args_tokens writing) (
        chain _ ((requests s []).reads message_begin (name, mtype, seqid) _)
          (chain _ dispatched received))
