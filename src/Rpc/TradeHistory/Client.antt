-- ===== src/Rpc/TradeHistory/Client.antt =====
-- dump/nonblocking/nb_client.cpp: the client of the trade report server, which asks for the last sale
-- until its user enters a line that begins with `q`. Its socket is a parameter, as is the text of a
-- double.
pub mod Turns
pub mod Endings
use apache_thrift_benchmarki.Prelude.{
  ℕ, zero, suc, Bool, true, false, List, [], ◌∷◌, ◌++◌, ◌⊎◌, inl, inr, ◌==◌, if◌then◌else◌,
}
use apache_thrift_benchmarki.Format.{Text, codes, show_ℤ}
use apache_thrift_benchmarki.Rpc.Terminal.{
  Terminal, beside, off_screen, show_line, read_line, starts_with_q, Sits, off_screen_ends,
  show_line_ends, read_line_ends, At, seated,
}
use apache_thrift_benchmarki.Rpc.Wire.{
  M, Outcome, ◌>>=◌, ◌>>◌, return, out_of_fuel, try_catch, Exception, application, protocol,
  transport, other, Protocol,
}
use apache_thrift_benchmarki.Rpc.TradeReport.{TradeReport, empty_report}
use apache_thrift_benchmarki.Rpc.TradeHistory.{get_last_sale}

abbrev pub appl : Text
appl = codes "APPL"

abbrev pub prompt : Text
prompt = codes "enter 'q' to quit, anything else to GetLastSale"

module _ {D : Type 0} (show_double : D → Text) where
  abbrev pub sale_line : TradeReport D → Text
  sale_line trade =
      codes "[Client] trade("
      ++ (appl
          ++ (codes "): "
              ++ (show_ℤ trade.seq_num
                  ++ (codes ">  "
                      ++ (trade.symbol
                          ++ (codes " "
                              ++ (show_ℤ trade.size
                                  ++ (codes " @ " ++ show_double trade.price))))))))

  module _ {W : Type 0} (zero_double : D) (iprot oprot : Protocol W D) (rounds : ℕ) where
    -- `do { … } while (input[0] != 'q');`
    unfoldable pub trade_loop : ℕ → Text → TradeReport D → M (W × Terminal) (Unit {0})
    unfolding off_screen show_line read_line
    trade_loop zero input trade = out_of_fuel
    trade_loop (suc fuel) input trade = do
      trade' ← off_screen (get_last_sale iprot oprot rounds trade appl)
      show_line (sale_line trade')
      show_line prompt
      input' ← read_line input
      if starts_with_q input' then return tt else trade_loop fuel input' trade'

    -- The three handlers.
    unfoldable pub complain : Unit {0} ⊎ Exception → M (W × Terminal) (Unit {0})
    complain (inl done) = return tt
    complain (inr (transport why)) =
        show_line (codes "Client caught a TTransportException: " ++ iprot.what (transport why))
    complain (inr (application kind why)) =
        show_line (codes "Client caught a TException: " ++ iprot.what (application kind why))
    complain (inr (protocol kind)) =
        show_line (codes "Client caught a TException: " ++ iprot.what (protocol kind))
    complain (inr (other why)) = show_line (codes "Client caught an exception")

    -- `open` and `close` of the transport.
    unfoldable pub trade_main : M W (Unit {0}) → M W (Unit {0}) → ℕ → M (W × Terminal) (Unit {0})
    unfolding trade_loop complain
    trade_main open_it close_it fuel = do
      ending ← try_catch (do off_screen open_it; trade_loop fuel [] (empty_report zero_double))
      complain ending
      off_screen close_it
