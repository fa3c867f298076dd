-- ===== src/Rpc/TradeHistory/Session.antt =====
-- The calls of one connection to the trade report server: TradeHistory's handler behind the stubs.
use apache_thrift_benchmarki.Prelude.{
  ℕ, ◌<◌, ◌≡◌, refl, false, List, [], ◌∷◌, map, none, some, Option-cases, inl, inr,
}
use apache_thrift_benchmarki.Prelude.Int.{pos}
use apache_thrift_benchmarki.Format.{Text}
use apache_thrift_benchmarki.TradeHistory
use apache_thrift_benchmarki.TradeHistory.{TradeHistoryHandler, get_last_sale, sales}
use apache_thrift_benchmarki.Rpc.Wire.{M, ◌>>=◌, return, returned, Protocol, Token}
use apache_thrift_benchmarki.Rpc.Wire.Ends.{Ends, chain, return_ends}
use apache_thrift_benchmarki.Rpc.Call.Processing.{Connected, no_handler, exchange}
use apache_thrift_benchmarki.Rpc.TradeReport.{TradeReport}
use apache_thrift_benchmarki.Rpc.TradeHistory.{
  send_get_last_sale, recv_get_last_sale, dispatch_call,
}
use apache_thrift_benchmarki.Rpc.TradeReport.Laws.{received}
use apache_thrift_benchmarki.Rpc.TradeHistory.Trip.{report_arrives}

-- The handler's report, with its price in hundredths as a double. It sets the members themselves, and
-- so no `__isset`.
abbrev pub on_wire : {D : Type 0} → (ℕ → D) → TradeHistory.TradeReport → TradeReport D
on_wire to_double report = record {
  symbol = report.symbol;
  isset_symbol = false;
  price = to_double report.price;
  isset_price = false;
  size = pos report.size;
  isset_size = false;
  seq_num = pos report.seq_num;
  isset_seq_num = false;
}

module _ {W D : Type 0} (request response : Protocol W D) (fuel : ℕ)
    (iface : Text → M W (TradeReport D)) (out : TradeReport D) where
  unfoldable pub session : List Text → M W (List (TradeReport D))
  session [] = return []
  session (symbol ∷ symbols) = do
    report ←
        exchange request (send_get_last_sale request symbol)
          (dispatch_call request response no_handler fuel iface)
          (recv_get_last_sale response fuel out)
    reports ← session symbols
    return (report ∷ reports)

-- A handler behind `iface` that does what `get_last_sale` does.
abbrev pub IsGetLastSale :
    {W D : Type 0}
    → (TradeHistoryHandler → List (Token D) → List (Token D) → W → Type 0)
    → (ℕ → D)
    → (Text → M W (TradeReport D))
    → Type 0
IsGetLastSale Holds to_double iface =
    (handler handler' : TradeHistoryHandler) (symbol : Text) (report : TradeHistory.TradeReport)
    → get_last_sale symbol handler ≡ some (report, handler')
    → Ends (Holds handler [] []) (iface symbol) (returned (on_wire to_double report))
        (Holds handler' [] [])

sales-none :
    {reports : List TradeHistory.TradeReport} {handler handler' : TradeHistoryHandler}
    → sales [] handler ≡ some (reports, handler')
    → (reports ≡ []) × (handler' ≡ handler)
unfolding sales
sales-none e = (cc, cc)

sales-first :
    (symbol : Text) (symbols : List Text) (handler : TradeHistoryHandler)
    {reports : List TradeHistory.TradeReport} {handler' : TradeHistoryHandler}
    → sales (symbol ∷ symbols) handler ≡ some (reports, handler')
    → (report : TradeHistory.TradeReport) × (next : TradeHistoryHandler) × (rest : List
        TradeHistory.TradeReport)
      × (get_last_sale symbol handler ≡ some (report, next))
      × (sales symbols next ≡ some (rest, handler'))
      × (reports ≡ report ∷ rest)
unfolding sales
sales-first symbol symbols handler e = elim (Option-cases (get_last_sale symbol handler)) [
  | inl failed ↦
      let nothing : sales (symbol ∷ symbols) handler ≡ none = rw (failed, sales) refl in cc
  | inr ((report, next), first) ↦ elim (Option-cases (sales symbols next)) [
    | inl failed ↦
        let nothing : sales (symbol ∷ symbols) handler ≡ none =
          rw (first, sales) (rw (failed, sales) refl) in
        cc
    | inr ((rest, last), later) ↦
        let all : sales (symbol ∷ symbols) handler ≡ some (report ∷ rest, last) =
          rw (first, sales) (rw (later, sales) refl) in
        (report, next, rest, first, cc, cc)
  ]
]

module _ {W D : Type 0} {request response : Protocol W D}
    {Holds : TradeHistoryHandler → List (Token D) → List (Token D) → W → Type 0}
    (connected : Connected request response Holds) (fuel : ℕ) (enough : 4 < fuel)
    (to_double : ℕ → D) (iface : Text → M W (TradeReport D))
    (is_handler : IsGetLastSale Holds to_double iface) (out : TradeReport D) where
  abbrev pub arrived : List TradeHistory.TradeReport → List (TradeReport D)
  arrived reports = map (λ report. received (on_wire to_double report)) reports

  -- Calls of get_last_sale one after the other through the stubs, over a connection to a handler
  -- that does what TradeHistoryHandler::get_last_sale does, return the reports of the handler with
  -- every member marked as set, as long as none of its numbers overflows, and leave the handler in
  -- the same state.
  pub session-sales :
      (symbols : List Text) (reports : List TradeHistory.TradeReport)
      (handler handler' : TradeHistoryHandler)
      → sales symbols handler ≡ some (reports, handler')
      → Ends
          (Holds handler [] [])
          (session request response fuel iface out symbols)
          (returned (arrived reports))
          (Holds handler' [] [])
  unfolding session sales
  session-sales [] reports handler handler' e =
      let (none_left, same) = sales-none e in rw none_left (rw same (return_ends []))
  session-sales (symbol ∷ symbols) reports handler handler' e =
      let (report, next, rest, first, later, joined) = sales-first symbol symbols handler e in
      rw joined (
        chain _
          (report_arrives connected fuel enough iface symbol out (on_wire to_double report)
            (is_handler handler next symbol report first))
          (chain _ (session-sales symbols rest next handler' later) (return_ends _)))
