-- ===== src/Tests/SaleClient.antt =====
-- The client of the trade report server on a connection whose replies are on their way.
use apache_thrift_benchmarki.Prelude.{ℕ, ◌≡◌, refl, false, List, [], ◌∷◌, arith}
use apache_thrift_benchmarki.Prelude.Int.{pos}
use apache_thrift_benchmarki.Format.{Text, codes, same_text, show_ℤ}
use apache_thrift_benchmarki.Rpc.Terminal.{At}
use apache_thrift_benchmarki.Rpc.Wire.{
  returned, thrown, ◌>>=◌, return, Protocol, message_begin, message_end, t_reply, Token, token,
  struct_val, encode,
}
use apache_thrift_benchmarki.Rpc.Wire.Ends.{Ends, return_ends}
use apache_thrift_benchmarki.Rpc.Struct.{
  if_type, member, read_fields, read_struct, write_field, write_struct,
}
use apache_thrift_benchmarki.Rpc.Call.{send, recv, end_message}
use apache_thrift_benchmarki.Rpc.TradeReport.{TradeReport, read_report, report_switch}
use apache_thrift_benchmarki.Rpc.TradeHistory.{
  get_last_sale, send_get_last_sale, recv_get_last_sale, write_pargs, read_presult, result_switch,
}
use apache_thrift_benchmarki.Rpc.TradeHistory.Trip.{result_fields}
use apache_thrift_benchmarki.Rpc.TradeHistory.Client.{appl, prompt, sale_line, trade_main}
use apache_thrift_benchmarki.Rpc.TradeHistory.Client.Turns.{Turn, Answers, screen}
use apache_thrift_benchmarki.Rpc.TradeHistory.Client.Endings.{
  complaint, trade_main-quits, trade_main-complains,
}
use apache_thrift_benchmarki.Tests.Loopback.{queue, read_token, as_part, disconnected}

abbrev Line : Type 0
Line = List (Token ℕ)

-- What the client writes is gone.
abbrev incoming : Protocol Line ℕ
incoming = queue (λ w. w) (λ ts w. ts)

abbrev outgoing : Protocol Line ℕ
outgoing = queue (λ w. []) (λ ts w. w)

abbrev replies : List (TradeReport ℕ) → Line
replies [] = []
replies (report ∷ reports) =
    token message_begin (codes "get_last_sale", t_reply, pos 0)
    ∷ encode (struct_val (result_fields report)) (token message_end tt ∷ replies reports)

abbrev OnTheirWay : List (TradeReport ℕ) → Line → Type 0
OnTheirWay reports w = w ≡ replies reports

answers_replies : Answers incoming outgoing 5 OnTheirWay
unfolding get_last_sale send_get_last_sale recv_get_last_sale send recv write_pargs write_struct
    write_field read_presult read_struct read_fields result_switch if_type member read_report
    report_switch queue read_token as_part encode ◌>>=◌ return end_message same_text
answers_replies report reports out = record { at = λ w h. (replies reports, rw h refl, refl) }

breaks_empty :
    (out : TradeReport ℕ)
    → Ends
        (OnTheirWay [])
        (get_last_sale incoming outgoing 5 out appl)
        (thrown disconnected)
        (OnTheirWay [])
unfolding get_last_sale send_get_last_sale recv_get_last_sale send recv write_pargs write_struct
    write_field queue read_token ◌>>=◌ return
breaks_empty out = record { at = λ w h. ([], rw h refl, refl) }

abbrev sale : ℕ → TradeReport ℕ
sale n = record {
  symbol = codes "APPL";
  isset_symbol = false;
  price = 127;
  isset_price = false;
  size = pos 500;
  isset_size = false;
  seq_num = pos n;
  isset_seq_num = false;
}

abbrev dollars : ℕ → Text
dollars n = show_ℤ (pos n)

abbrev more : List (Turn ℕ)
more = (sale 1, codes "again") ∷ (sale 2, []) ∷ []

trade_main-quits_example :
    Ends
      (At (OnTheirWay (sale 1 ∷ sale 2 ∷ sale 3 ∷ [])) (codes "again" ∷ [] ∷ codes "quit" ∷ []) [])
      (trade_main dollars 0 incoming outgoing 5 (return tt) (return tt) 3)
      (returned tt)
      (At (OnTheirWay []) [] (screen dollars more (sale_line dollars (sale 3) ∷ prompt ∷ [])))
trade_main-quits_example =
    trade_main-quits dollars 0 incoming outgoing 5 OnTheirWay more [] [] [] 3 answers_replies
      (refl, (refl, tt)) (omega arith) (sale 3) (codes "quit") (return_ends tt) (return_ends tt)
      refl

trade_main-complains_example :
    Ends
      (At (OnTheirWay (sale 1 ∷ sale 2 ∷ [])) (codes "again" ∷ [] ∷ []) [])
      (trade_main dollars 0 incoming outgoing 5 (return tt) (return tt) 3)
      (returned tt)
      (At (OnTheirWay []) [] (screen dollars more (complaint incoming disconnected ∷ [])))
trade_main-complains_example =
    trade_main-complains dollars 0 incoming outgoing 5 OnTheirWay more [] [] [] 3 answers_replies
      (refl, (refl, tt)) (omega arith) disconnected (return_ends tt) breaks_empty (return_ends tt)
