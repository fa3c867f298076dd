-- ===== src/TradeHistory.antt =====
-- dump/nonblocking/nb_server.cpp: `TradeHistoryHandler`, one for each connection, which numbers its
-- answers, and `TradeHistoryFactory`, which numbers the connections. What they print is left out.
pub mod Numbers
pub mod Console
use apache_thrift_benchmarki.Prelude.{
  ℕ, zero, suc, ◌+◌, ◌-◌, ◌*◌, ◌^◌, ◌≤◌, ◌≡◌, Bool, true, false, ◌&&◌, List, [], ◌∷◌, ◌++◌, Option,
  none, some, ltb, leb, if◌then◌else◌,
}
use apache_thrift_benchmarki.Prelude.Int.{int_max}
use apache_thrift_benchmarki.Format.{Text, codes, same_text}

-- Prices are in hundredths: the doubles 127.61, 46.23 and 0.0.
pub record TradeReport : Type 0 where
  pub seq_num : ℕ
  pub symbol : Text
  pub price : ℕ
  pub size : ℕ

-- `con_id` and `call_count`, of type int and never negative.
pub record TradeHistoryHandler : Type 0 where
  pub con_id : ℕ
  pub call_count : ℕ

abbrev pub price_of : Text → ℕ × ℕ
price_of symbol =
    if same_text symbol (codes "APPL")
    then (12761, 500)
    else if same_text symbol (codes "MSFT")
    then (4623, 400)
    else (0, 0)

-- `none` where `++call_count`, the product or the sum overflows an int.
unfoldable pub get_last_sale :
    Text → TradeHistoryHandler → Option (TradeReport × TradeHistoryHandler)
get_last_sale symbol handler =
    let call_count = handler.call_count + 1 in
    if leb call_count int_max && leb (handler.con_id * 10000 + call_count) int_max
    then some (
      record {
        seq_num = handler.con_id * 10000 + call_count;
        symbol = symbol;
        price = (price_of symbol).0;
        size = (price_of symbol).1;
      },
      record handler { call_count = call_count },
    )
    else none

-- `getHandler`: the new handler and the factory's count; `none` where `++con_count` overflows.
unfoldable pub get_handler : ℕ → Option (TradeHistoryHandler × ℕ)
get_handler con_count =
    if leb (con_count + 1) int_max
    then some (record { con_id = con_count + 1; call_count = 0 }, con_count + 1)
    else none

-- The calls of one connection.
unfoldable pub sales :
    List Text → TradeHistoryHandler → Option (List TradeReport × TradeHistoryHandler)
sales [] handler = some ([], handler)
sales (symbol ∷ symbols) handler = elim (get_last_sale symbol handler) [
  | none ↦ none
  | some (report, handler') ↦ elim (sales symbols handler') [
    | none ↦ none
    | some (reports, handler'') ↦ some (report ∷ reports, handler'')
  ]
]
