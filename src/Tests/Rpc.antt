-- ===== src/Tests/Rpc.antt =====
-- Calls over a connection of two queues.
use apache_thrift_benchmarki.Prelude.{ℕ, refl, inr, arith, List, [], ◌∷◌, Option, none, some}
use apache_thrift_benchmarki.Prelude.Int.{ℤ, pos, negsuc}
use apache_thrift_benchmarki.Format.{Text, codes}
use apache_thrift_benchmarki.Motd.{MessageHandler, motd, motds}
use apache_thrift_benchmarki.Rpc.Wire.{
  M, Outcome, Protocol, return, returned, thrown, Exception, other, Token,
}
use apache_thrift_benchmarki.Rpc.Wire.Ends.{Ends}
use apache_thrift_benchmarki.Rpc.Call.Processing.{no_handler, exchange, client_outcome}
use apache_thrift_benchmarki.Tests.Loopback.{Loop, loop_request, loop_response, LoopHolds, loop}
use apache_thrift_benchmarki.Rpc.UniqueId
use apache_thrift_benchmarki.Rpc.UniqueId.Trip.{unique_id_arrives}
use apache_thrift_benchmarki.Rpc.UniqueIdAsync
use apache_thrift_benchmarki.Rpc.UniqueIdAsync.Trip.{nothing_returns}
use apache_thrift_benchmarki.Rpc.Message.Session
use apache_thrift_benchmarki.Rpc.Message.Session.{session-motds, IsMotd}

-- Doubles are numbers here, in hundredths.
abbrev Idle : Type 0
Idle = Loop (Unit {0}) ℕ

abbrev out : Protocol Idle ℕ
out = loop_request

abbrev back : Protocol Idle ℕ
back = loop_response

abbrev IdleHolds : List (Token ℕ) → List (Token ℕ) → Idle → Type 0
IdleHolds q r w = LoopHolds tt q r w

abbrev no_clock : Exception
no_clock = other (codes "no clock")

abbrev failing_id : ℤ → M Idle Text
failing_id id w = (thrown no_clock, w)

unique_id_arrives_example :
    Ends
      (IdleHolds [] [])
      (exchange out
        (UniqueId.send_compute_unique_id out (pos 7))
        (UniqueId.dispatch_call out back no_handler 2 failing_id)
        (UniqueId.recv_compute_unique_id back 2))
      (client_outcome back (inr no_clock))
      (IdleHolds [] [])
unique_id_arrives_example =
    unique_id_arrives loop 2 (omega arith) failing_id {s = tt} {s' = tt} (pos 7) (inr no_clock)
      (record { at = λ w h. (w, refl, h) })

abbrev failing_async : ℤ → M Idle (Unit {0})
failing_async id w = (thrown no_clock, w)

nothing_returns_example :
    Ends
      (IdleHolds [] [])
      (exchange out
        (UniqueIdAsync.compute_unique_id back out (negsuc 4))
        (UniqueIdAsync.dispatch_call out back no_handler 2 failing_async)
        (return tt))
      (returned tt)
      (IdleHolds [] [])
nothing_returns_example =
    nothing_returns loop 2 (omega arith) failing_async {s = tt} {s' = tt} (negsuc 4) (inr no_clock)
      (record { at = λ w h. (w, refl, h) })

-- The message server behind the stubs.
abbrev Talking : Type 0
Talking = Loop MessageHandler ℕ

abbrev answered : Option Text × MessageHandler → Talking → Outcome Text × Talking
answered (some answer, handler) w = (returned answer, (handler, w.1, w.2))
answered (none, handler) w = (thrown no_clock, (handler, w.1, w.2))

abbrev talk : Text → M Talking Text
talk value w = answered (motd (codes "1") value w.0) w

IsMotd-talk : IsMotd LoopHolds (codes "1") talk
unfolding motd
IsMotd-talk handler value answer e = record { at = λ w h. ((_, [], []), rw h (rw e refl), refl) }

abbrev first_handler : MessageHandler
first_handler = record { msg_index = 0; connection_no = 1; output = [] }

abbrev said : List Text
said = codes "a" ∷ codes "b" ∷ []

abbrev heard : List Text
heard = codes "Childhood is a short season" ∷ codes "'Twas brillig" ∷ []

session-motds_example :
    Ends
      (LoopHolds first_handler [] [])
      (Session.session loop_request loop_response 2 talk said)
      (returned heard)
      (LoopHolds (motds (codes "1") said first_handler).1 [] [])
unfolding motds motd
session-motds_example =
    session-motds loop 2 (omega arith) (codes "1") talk IsMotd-talk said heard first_handler refl
