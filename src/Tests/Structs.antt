-- ===== src/Tests/Structs.antt =====
-- Structs, messages and sessions over a connection of two queues.
use apache_thrift_benchmarki.Prelude.{
  ℕ, refl, arith, true, false, List, [], ◌∷◌, map, Option, none, some,
}
use apache_thrift_benchmarki.Prelude.Int.{ℤ, pos}
use apache_thrift_benchmarki.Format.{Text, codes, same_text}
use apache_thrift_benchmarki.TradeHistory
use apache_thrift_benchmarki.TradeHistory.{TradeHistoryHandler, get_last_sale, sales}
use apache_thrift_benchmarki.Rpc.Wire.{
  M, Outcome, endless, t_exception, Protocol, ◌>>◌, returned, thrown, Exception, application,
  unknown_method, t_reply, t_call, message_end, message_begin, Token, token, text_val, double_val,
  struct_val, Fields, no_field, field, encode,
}
use apache_thrift_benchmarki.Rpc.Wire.Ends.{Ends}
use apache_thrift_benchmarki.Rpc.Struct.Fields.{absorb}
use apache_thrift_benchmarki.Rpc.Call.Processing.{no_handler, exchange}
use apache_thrift_benchmarki.Tests.Loopback.{
  Loop, loop_request, loop_response, LoopHolds, loop, Shared,
}
use apache_thrift_benchmarki.Rpc.UniqueId
use apache_thrift_benchmarki.Rpc.TradeHistory.Session
use apache_thrift_benchmarki.Rpc.Message
use apache_thrift_benchmarki.Rpc.Message.Trip.{write_pargs-Puts}
use apache_thrift_benchmarki.Rpc.TradeHistory.Session.{
  session-sales, IsGetLastSale, on_wire, arrived,
}
use apache_thrift_benchmarki.Rpc.TradeReport.{TradeReport, empty_report, read_report}
use apache_thrift_benchmarki.Rpc.TradeReport.Laws.{received, read_report-absorb, report_after}
use apache_thrift_benchmarki.Rpc.Compute.ComputeList
use apache_thrift_benchmarki.Rpc.Compute.ComputeList.Trip.{values_return}
use apache_thrift_benchmarki.Rpc.Call.{ProcessMap, find, send, recv, dispatch_call}
use apache_thrift_benchmarki.Rpc.Call.Exchanges.{unknown_method_arrives}
use apache_thrift_benchmarki.Rpc.Call.Messages.{recv_lem, message, failure}
use apache_thrift_benchmarki.Rpc.Call.Concurrent.Sharing.{Foreign}
use apache_thrift_benchmarki.Rpc.Results.{
  empty_result, with_success, text_success, read_text_result,
}
use apache_thrift_benchmarki.Rpc.Results.Laws.{read_text_result-absorb, text_result_fields}

-- Doubles are numbers here, in hundredths.
abbrev Idle : Type 0
Idle = Loop (Unit {0}) ℕ

abbrev out : Protocol Idle ℕ
out = loop_request

abbrev back : Protocol Idle ℕ
back = loop_response

abbrev IdleHolds : List (Token ℕ) → List (Token ℕ) → Idle → Type 0
IdleHolds q r w = LoopHolds tt q r w

abbrev some_id : ℤ → M Idle Text
some_id id w = (returned (codes "a1"), w)

abbrev id_map : ProcessMap Idle
id_map = UniqueId.process_map out back no_handler 2 some_id

abbrev no_such_call : Exception
no_such_call = application unknown_method (codes "Invalid method name: 'motd'")

unknown_method_arrives_example :
    Ends
      (IdleHolds [] [])
      (exchange out
        (send out (codes "motd") t_call (pos 0) (Message.write_pargs out (codes "a")))
        (dispatch_call out back id_map)
        (recv back (codes "motd") (read_text_result back 2 empty_result) text_success))
      (thrown no_such_call)
      (IdleHolds [] [])
unfolding find UniqueId.process_map same_text
unknown_method_arrives_example =
    unknown_method_arrives loop (codes "motd") {s = tt} id_map
      (read_text_result back 2 empty_result) text_success
      (field (pos 1) (text_val (codes "a")) no_field) refl
      (write_pargs-Puts (loop.requests tt []) (codes "a"))

-- Three planes: of two rows, of none, of one that is empty.
abbrev planes : List (List (List ℕ))
planes = ((1 ∷ 2 ∷ []) ∷ (3 ∷ []) ∷ []) ∷ [] ∷ ([] ∷ []) ∷ []

values_return_example :
    Ends
      (λ w. IdleHolds [] [] w)
      (ComputeList.write_pargs out planes >> ComputeList.read_args out 2 ComputeList.empty_args)
      (returned (record { values = planes; isset_values = true }))
      (λ w. IdleHolds [] [] w)
values_return_example =
    values_return (loop.requests tt []) 2 planes ComputeList.empty_args (omega arith) (omega arith)

abbrev report : TradeReport ℕ
report = record {
  symbol = codes "APPL";
  isset_symbol = false;
  price = 12761;
  isset_price = false;
  size = pos 500;
  isset_size = false;
  seq_num = pos 10001;
  isset_seq_num = false;
}

-- A member that a later version has, one of another type, and two symbols.
abbrev odd_fields : Fields ℕ
odd_fields = field (pos 9) (double_val 4) (
    field (pos 4) (text_val (codes "x")) (
      field (pos 1) (text_val (codes "APPL"))
        (field (pos 2) (double_val 4623) (field (pos 1) (text_val (codes "MSFT")) no_field))))

read_report-absorb_example :
    Ends
      (IdleHolds (encode (struct_val odd_fields) []) [])
      (read_report out 6 (empty_report 0))
      (returned (absorb report_after (empty_report 0) odd_fields))
      (IdleHolds [] [])
read_report-absorb_example =
    read_report-absorb (loop.requests tt []) 6 odd_fields (empty_report 0) (omega arith) []

abbrev answer_tokens : List (Token ℕ) → List (Token ℕ)
answer_tokens ts = encode (struct_val (text_result_fields (with_success (codes "a1")))) ts

recv_lem_example :
    Ends
      (λ w. IdleHolds [] (message (codes "motd") t_reply (pos 0) answer_tokens) w)
      (recv back (codes "motd") (read_text_result back 2 empty_result) text_success)
      (returned (codes "a1"))
      (λ w. IdleHolds [] [] w)
    × Ends
        (λ w.
          IdleHolds [] (message (codes "call") t_exception (pos 0) (failure 6 (codes "down"))) w)
        (recv back (codes "motd") (read_text_result back 2 empty_result) text_success)
        (thrown (application 6 (codes "down")))
        (λ w. IdleHolds [] [] w)
    × Ends
        (λ w.
          IdleHolds []
            (token message_begin (codes "call", t_reply, pos 0)
              ∷ encode
                  (struct_val odd_fields)
                  (token message_end tt ∷ answer_tokens (token message_end tt ∷ [])))
            w)
        (recv back (codes "motd") (read_text_result back 2 empty_result) text_success)
        (returned (codes "a1"))
        (λ w. IdleHolds [] [] w)
unfolding same_text
recv_lem_example =
    recv_lem (loop.responses tt []) (codes "motd") (read_text_result back 2 empty_result)
      text_success answer_tokens
      (read_text_result-absorb (loop.responses tt []) 2
        (text_result_fields (with_success (codes "a1"))) empty_result (omega arith))
      (pos 0) (codes "call") 6 (codes "down") odd_fields refl

-- Two replies for other threads come before that for call 1.
abbrev Many : Type 0
Many = Shared ℕ

abbrev many : Protocol Many ℕ
many = loop_response

abbrev for_others : List (Foreign ℕ)
for_others =
    record { sender = codes "motd"; seqid = pos 2; fields = odd_fields }
    ∷ record { sender = codes "motd"; seqid = pos 3; fields = no_field }
    ∷ []

-- The trade report server behind the stubs.
abbrev Trading : Type 0
Trading = Loop TradeHistoryHandler ℕ

abbrev served :
    Option (TradeHistory.TradeReport × TradeHistoryHandler)
    → Trading
    → Outcome (TradeReport ℕ) × Trading
served (some (sale, handler)) w = (returned (on_wire (λ price. price) sale), (handler, w.1, w.2))
served none w = (endless, w)

abbrev trade : Text → M Trading (TradeReport ℕ)
trade symbol w = served (get_last_sale symbol w.0) w

IsGetLastSale-trade : IsGetLastSale LoopHolds (λ price. price) trade
IsGetLastSale-trade handler handler' symbol sale e = record {
  at = λ w h. ((handler', [], []), rw h (rw e refl), refl);
}

abbrev opened : TradeHistoryHandler
opened = record { con_id = 1; call_count = 0 }

abbrev sold : List TradeHistory.TradeReport
sold =
    record { seq_num = 10001; symbol = codes "MSFT"; price = 4623; size = 400 }
    ∷ record { seq_num = 10002; symbol = codes "X"; price = 0; size = 0 }
    ∷ []

session-sales_example :
    Ends
      (LoopHolds opened [] [])
      (Session.session loop_request loop_response 5 trade
        (empty_report 0)
        (codes "MSFT" ∷ codes "X" ∷ []))
      (returned (map (λ sale. received (on_wire (λ price. price) sale)) sold))
      (LoopHolds (record { con_id = 1; call_count = 2 }) [] [])
unfolding sales get_last_sale same_text
session-sales_example =
    session-sales loop 5 (omega arith) (λ price. price) trade IsGetLastSale-trade (empty_report 0)
      (codes "MSFT" ∷ codes "X" ∷ []) sold opened (record { con_id = 1; call_count = 2 }) refl
