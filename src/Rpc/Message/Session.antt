-- ===== src/Rpc/Message/Session.antt =====
-- The calls of one connection to the message server: Motd's handler behind the stubs of Message.
use apache_thrift_benchmarki.Prelude.{ℕ, ◌<◌, ◌≡◌, List, [], ◌∷◌, map, some}
use apache_thrift_benchmarki.Format.{Text}
use apache_thrift_benchmarki.Motd.{MessageHandler, motd, motds}
use apache_thrift_benchmarki.Rpc.Wire.{M, ◌>>=◌, return, returned, Protocol, Token}
use apache_thrift_benchmarki.Rpc.Wire.Ends.{Ends, chain, return_ends}
use apache_thrift_benchmarki.Rpc.Call.Processing.{Connected, no_handler, exchange}
use apache_thrift_benchmarki.Rpc.Message.{send_motd, recv_motd, dispatch_call}
use apache_thrift_benchmarki.Rpc.Message.Trip.{motd_arrives}

module _ {W D : Type 0} (request response : Protocol W D) (fuel : ℕ) (iface : Text → M W Text) where
  unfoldable pub session : List Text → M W (List Text)
  session [] = return []
  session (value ∷ values) = do
    answer ←
        exchange request (send_motd request value)
          (dispatch_call request response no_handler fuel iface) (recv_motd response fuel)
    answers ← session values
    return (answer ∷ answers)

-- A handler behind `iface` that does what `motd` does.
abbrev pub IsMotd :
    {W D : Type 0}
    → (MessageHandler → List (Token D) → List (Token D) → W → Type 0)
    → Text
    → (Text → M W Text)
    → Type 0
IsMotd Holds thread iface =
    (handler : MessageHandler) (value answer : Text)
    → (motd thread value handler).0 ≡ some answer
    → Ends (Holds handler [] []) (iface value) (returned answer)
        (Holds (motd thread value handler).1 [] [])

module _ {W D : Type 0} {request response : Protocol W D}
    {Holds : MessageHandler → List (Token D) → List (Token D) → W → Type 0}
    (connected : Connected request response Holds) (fuel : ℕ) (enough : 1 < fuel) (thread : Text)
    (iface : Text → M W Text) (is_motd : IsMotd Holds thread iface) where
  -- Calls of motd one after the other through the stubs, over a connection to a handler that does
  -- what MessageHandler::motd does, return what the same calls return at the handler itself, and
  -- leave the handler in the same state.
  pub session-motds :
      (values answers : List Text) (handler : MessageHandler)
      → (motds thread values handler).0 ≡ map some answers
      → Ends
          (Holds handler [] [])
          (session request response fuel iface values)
          (returned answers)
          (Holds (motds thread values handler).1 [] [])
  unfolding session motds
  session-motds [] [] handler e = return_ends []
  session-motds [] (answer ∷ answers) handler e = cc
  session-motds (value ∷ values) [] handler e = cc
  session-motds (value ∷ values) (answer ∷ answers) handler e =
      chain _
        (motd_arrives connected fuel enough iface value answer (is_motd handler value answer cc))
        (chain _ (session-motds values answers (motd thread value handler).1 cc) (return_ends _))
