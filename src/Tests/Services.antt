-- ===== src/Tests/Services.antt =====
-- Runs of the trade, message and echo services and of the clients that make one call.
use apache_thrift_benchmarki.Prelude.{
  ℕ, ◌+◌, ◌≡◌, refl, arith, true, List, [], ◌∷◌, ◌++◌, map, some, length,
}
use apache_thrift_benchmarki.Prelude.Int.{pos, negsuc}
use apache_thrift_benchmarki.Format.{
  Text, codes, to_string, strip, digits, digit_char, same_text, show_ℤ,
}
use apache_thrift_benchmarki.Clients.{Network, done, opened, closed}
use apache_thrift_benchmarki.Clients.Load.Endings.{ended, closes}
use apache_thrift_benchmarki.Clients.Traces.{Serves}
use apache_thrift_benchmarki.Clients.Proxies.Requests.{blocks}
use apache_thrift_benchmarki.Clients.Single.{
  motd_endpoint, echo_nonblocking_main, echo_thread_pool_main, motd_main,
}
use apache_thrift_benchmarki.Clients.Single.Endings.{
  other_than_q, motd_request, motd_block, NoQ, echo_clients_end, motd_main-quits,
}
use apache_thrift_benchmarki.TradeHistory.{TradeReport, TradeHistoryHandler, get_last_sale, sales}
use apache_thrift_benchmarki.TradeHistory.Numbers.{sales-numbers, seq_num-distinct}
use apache_thrift_benchmarki.Motd.{MessageHandler, motds}
use apache_thrift_benchmarki.Motd.Turns.{motds-turns}
use apache_thrift_benchmarki.Echo.{
  printed, begin_trace, tracepoint, trigger, end_trace, request_name, call,
}
use apache_thrift_benchmarki.Echo.Traced.{call-traces}

abbrev sparta : Network ℕ
sparta = record {
  open_at = λ endpoint n. (true, n);
  is_open = λ endpoint n. true;
  answer = λ endpoint request n. (some (codes "This is Sparta"), n + 1);
}

Serves-sparta : Serves sparta motd_endpoint motd_request other_than_q
unfolding same_text
Serves-sparta = record { opens = λ w. refl; answers = λ w. (codes "This is Sparta", refl, refl) }

echo_clients_end_example :
    (ended (echo_nonblocking_main sparta 0).0 ≡ 1)
    × (closes (echo_nonblocking_main sparta 0).1.1 ≡ 1)
    × (ended (echo_thread_pool_main sparta 0).0 ≡ 1)
    × (closes (echo_thread_pool_main sparta 0).1.1 ≡ 1)
echo_clients_end_example = echo_clients_end sparta 0

not_yet : NoQ (codes "again" ∷ [] ∷ [])
unfolding same_text
not_yet = (refl, (refl, tt))

motd_main-quits_example :
    (n : ℕ) × (texts : List Text) × (motd_main sparta 4
        (record { lines = codes "again" ∷ [] ∷ codes "q" ∷ []; good = true })
        0
      ≡ (done tt, (n, opened ∷ blocks motd_block texts ++ closed ∷ [])))
    × (length texts ≡ 3)
motd_main-quits_example =
    motd_main-quits sparta (codes "again" ∷ [] ∷ []) [] 4 0 not_yet (omega arith) Serves-sparta

abbrev first_handler : TradeHistoryHandler
first_handler = record { con_id = 1; call_count = 0 }

abbrev apple : ℕ → TradeReport
apple n = record { seq_num = n; symbol = codes "APPL"; price = 12761; size = 500 }

one_sale :
    get_last_sale (codes "APPL") first_handler
    ≡ some (apple 10001, record { con_id = 1; call_count = 1 })
unfolding get_last_sale same_text
one_sale = refl

sales-numbers_example :
    (reports : List TradeReport) × (sales (codes "APPL" ∷ codes "MSFT" ∷ []) first_handler
      ≡ some (reports, record { con_id = 1; call_count = 2 }))
    × (map (λ report. report.seq_num) reports ≡ 10001 ∷ 10002 ∷ [])
    × (map (λ report. report.symbol) reports ≡ codes "APPL" ∷ codes "MSFT" ∷ [])
sales-numbers_example = sales-numbers (codes "APPL" ∷ codes "MSFT" ∷ []) 1 0 (omega arith)

seq_num-distinct_example :
    (first_handler.con_id ≡ first_handler.con_id)
    × (first_handler.call_count ≡ first_handler.call_count)
seq_num-distinct_example =
    seq_num-distinct (codes "APPL") (codes "APPL") first_handler first_handler (omega arith)
      (omega arith) one_sale one_sale refl

abbrev new_handler : MessageHandler
new_handler = record { msg_index = 0; connection_no = 1; output = [] }

abbrev last_handler : MessageHandler
last_handler = record { msg_index = 4294967294; connection_no = 1; output = [] }

motds-turns_example :
    ((motds (codes "T") ([] ∷ [] ∷ [] ∷ []) new_handler).0
      ≡ some (codes "Childhood is a short season")
        ∷ some (codes "'Twas brillig")
        ∷ some (codes "Apache Thrift!!")
        ∷ [])
    × ((motds (codes "T") ([] ∷ [] ∷ [] ∷ []) new_handler).1.msg_index ≡ 3)
motds-turns_example = motds-turns (codes "T") ([] ∷ [] ∷ [] ∷ []) new_handler (omega arith)

call-traces_example :
    call (pos 7)
    ≡ some (
        begin_trace (pos 7)
        ∷ tracepoint (codes "request_" ++ show_ℤ (pos 7)) 32
        ∷ printed (show_ℤ (pos 7))
        ∷ printed (codes "Sending trigger: " ++ show_ℤ (pos 7))
        ∷ trigger (pos 7)
        ∷ end_trace
        ∷ [])
call-traces_example = call-traces (pos 7)

untriggered :
    call (negsuc 6)
    ≡ some (
        begin_trace (negsuc 6)
        ∷ tracepoint (codes "request_-7") 32
        ∷ printed (codes "-7")
        ∷ end_trace
        ∷ [])
unfolding call request_name show_ℤ to_string strip digits digit_char
untriggered = refl
