-- ===== src/Rpc/TradeHistory/Client/Endings.antt =====
-- How the client of the trade report server ends.
use apache_thrift_benchmarki.Prelude.{ℕ, ◌<◌, ◌≡◌, true, List, [], ◌∷◌, ◌++◌, inr, length}
use apache_thrift_benchmarki.Format.{Text, codes}
use apache_thrift_benchmarki.Rpc.Terminal.{
  starts_with_q, Sits, off_screen_ends, show_line_ends, At, seated,
}
use apache_thrift_benchmarki.Rpc.Wire.{
  M, returned, thrown, Exception, application, protocol, transport, other, Protocol,
}
use apache_thrift_benchmarki.Rpc.Wire.Ends.{
  Ends, chain, >>=-thrown, return_ends, try_catch-returned, try_catch-thrown,
}
use apache_thrift_benchmarki.Rpc.TradeReport.{TradeReport, empty_report}
use apache_thrift_benchmarki.Rpc.TradeHistory.{get_last_sale}
use apache_thrift_benchmarki.Rpc.TradeHistory.Client.{
  appl, prompt, sale_line, trade_loop, complain, trade_main,
}
use apache_thrift_benchmarki.Rpc.TradeHistory.Client.Turns.{
  Turn, NoneQuits, reports_of, lines_of, Answers, screen, one_turn, passes,
}

-- What the three handlers print.
abbrev pub complaint : {W D : Type 0} → Protocol W D → Exception → Text
complaint prot (application kind why) =
    codes "Client caught a TException: " ++ prot.what (application kind why)
complaint prot (protocol kind) = codes "Client caught a TException: " ++ prot.what (protocol kind)
complaint prot (transport why) =
    codes "Client caught a TTransportException: " ++ prot.what (transport why)
complaint prot (other why) = codes "Client caught an exception"

module _ {D : Type 0} (show_double : D → Text) {W : Type 0} (zero_double : D)
    (iprot oprot : Protocol W D) (rounds : ℕ) where
  complain_ends :
      {P : W → Type 0} (e : Exception) (lines all rest : List Text)
      → Ends
          (Sits P lines all (complaint iprot e ∷ rest))
          (complain show_double zero_double iprot oprot rounds (inr e))
          (returned tt)
          (Sits P lines all rest)
  unfolding complain
  complain_ends (application kind why) lines all rest = show_line_ends lines _ rest
  complain_ends (protocol kind) lines all rest = show_line_ends lines _ rest
  complain_ends (transport why) lines all rest = show_line_ends lines _ rest
  complain_ends (other why) lines all rest = show_line_ends lines _ rest

  -- Where the transport cannot be opened, the client says so and closes it.
  pub trade_main-unopened :
      {Outside Broken Closed : W → Type 0} {open_it close_it : M W (Unit {0})}
      (lines before : List Text) (fuel : ℕ) (e : Exception)
      → Ends Outside open_it (thrown e) Broken
      → Ends Broken close_it (returned tt) Closed
      → Ends
          (At Outside lines before)
          (trade_main show_double zero_double iprot oprot rounds open_it close_it fuel)
          (returned tt)
          (At Closed lines (before ++ complaint iprot e ∷ []))
  unfolding trade_main
  trade_main-unopened lines before fuel e fails closes = seated (complaint iprot e ∷ []) (
      chain _ (try_catch-thrown (>>=-thrown _ (off_screen_ends lines _ fails)))
        (chain _ (complain_ends e lines _ []) (off_screen_ends lines [] closes)))

  module _ (P : List (TradeReport D) → W → Type 0) {Outside Closed : W → Type 0}
      {open_it close_it : M W (Unit {0})} (turns : List (Turn D)) (reports : List (TradeReport D))
      (lines before : List Text) (fuel : ℕ) (answers : Answers iprot oprot rounds P)
      (none : NoneQuits turns) (enough : length turns < fuel) where
    -- Where the stub of get_last_sale returns reports and the transport opens and closes, the
    -- client of dump/nonblocking ends and closes its transport when its user enters a line that
    -- begins with q, if the lines before it are fewer than the fuel: it has shown the sale and the
    -- prompt for each line that was read, that line included, and read no further.
    pub trade_main-quits :
        (last : TradeReport D) (quit : Text)
        → Ends Outside open_it (returned tt) (P (reports_of turns (last ∷ reports)))
        → Ends (P reports) close_it (returned tt) Closed
        → starts_with_q quit ≡ true
        → Ends
            (At Outside (lines_of turns (quit ∷ lines)) before)
            (trade_main show_double zero_double iprot oprot rounds open_it close_it fuel)
            (returned tt)
            (At Closed lines
              (before ++ screen show_double turns (sale_line show_double last ∷ prompt ∷ [])))
    unfolding trade_main complain
    trade_main-quits last quit opens closes is_q =
        seated (screen show_double turns (sale_line show_double last ∷ prompt ∷ [])) (
          chain _
            (try_catch-returned (
              chain _ (off_screen_ends _ _ opens) (
                passes show_double zero_double iprot oprot rounds P answers turns (last ∷ reports)
                  (quit ∷ lines) (sale_line show_double last ∷ prompt ∷ []) none
                  (λ fuel input trade.
                    one_turn show_double zero_double iprot oprot rounds P answers last reports quit
                      lines [] fuel input trade (rw is_q (return_ends tt)))
                  fuel [] (empty_report zero_double) enough)))
            (chain _ (return_ends tt) (off_screen_ends lines [] closes)))

    -- Where a call of get_last_sale throws, after calls that returned and lines that do not begin
    -- with q, fewer than the fuel, the client of dump/nonblocking prints what its handler for
    -- TTransportException, for TException or for any other exception prints below the sales before
    -- it, closes the transport that was opened, if it can be closed, and ends.
    pub trade_main-complains :
        {Broken : W → Type 0} (e : Exception)
        → Ends Outside open_it (returned tt) (P (reports_of turns reports))
        → ((out : TradeReport D)
            → Ends (P reports) (get_last_sale iprot oprot rounds out appl) (thrown e) Broken)
        → Ends Broken close_it (returned tt) Closed
        → Ends
            (At Outside (lines_of turns lines) before)
            (trade_main show_double zero_double iprot oprot rounds open_it close_it fuel)
            (returned tt)
            (At Closed lines (before ++ screen show_double turns (complaint iprot e ∷ [])))
    unfolding trade_main trade_loop
    trade_main-complains e opens breaks closes =
        seated (screen show_double turns (complaint iprot e ∷ [])) (
          chain _
            (try_catch-thrown (
              chain _ (off_screen_ends _ _ opens) (
                passes show_double zero_double iprot oprot rounds P answers turns reports lines
                  (complaint iprot e ∷ []) none
                  (λ fuel input trade. >>=-thrown _ (off_screen_ends lines _ (breaks trade))) fuel
                  [] (empty_report zero_double) enough)))
            (chain _ (complain_ends e lines _ []) (off_screen_ends lines [] closes)))
