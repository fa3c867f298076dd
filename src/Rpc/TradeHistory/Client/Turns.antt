-- ===== src/Rpc/TradeHistory/Client/Turns.antt =====
-- The turns of the client of the trade report server: a sale and the line that its user enters.
use apache_thrift_benchmarki.Prelude.{
  ℕ, zero, suc, ◌<◌, ◌≡◌, false, List, [], ◌∷◌, if◌then◌else◌, arith, length,
}
use apache_thrift_benchmarki.Format.{Text}
use apache_thrift_benchmarki.Rpc.Terminal.{
  Terminal, starts_with_q, Sits, off_screen_ends, show_line_ends, read_line_ends,
}
use apache_thrift_benchmarki.Rpc.Wire.{Outcome, returned, return, Protocol}
use apache_thrift_benchmarki.Rpc.Wire.Ends.{Ends, chain}
use apache_thrift_benchmarki.Rpc.TradeReport.{TradeReport}
use apache_thrift_benchmarki.Rpc.TradeReport.Laws.{received}
use apache_thrift_benchmarki.Rpc.TradeHistory.{get_last_sale}
use apache_thrift_benchmarki.Rpc.TradeHistory.Client.{appl, prompt, sale_line, trade_loop}

-- A sale and the line that the user enters below it.
abbrev pub Turn : Type 0 → Type 0
Turn D = TradeReport D × Text

abbrev pub NoneQuits : {D : Type 0} → List (Turn D) → Type 0
NoneQuits [] = Unit {0}
NoneQuits (turn ∷ turns) = (starts_with_q turn.1 ≡ false) × NoneQuits turns

abbrev pub reports_of : {D : Type 0} → List (Turn D) → List (TradeReport D) → List (TradeReport D)
reports_of [] later = later
reports_of (turn ∷ turns) later = turn.0 ∷ reports_of turns later

abbrev pub lines_of : {D : Type 0} → List (Turn D) → List Text → List Text
lines_of [] later = later
lines_of (turn ∷ turns) later = turn.1 ∷ lines_of turns later

-- The network answers the calls of get_last_sale with these reports, and has P of those that are left.
abbrev pub Answers :
    {W D : Type 0} → Protocol W D → Protocol W D → ℕ → (List (TradeReport D) → W → Type 0) → Type 0
Answers {D = D} iprot oprot rounds P =
    (report : TradeReport D) (reports : List (TradeReport D)) (out : TradeReport D)
    → Ends (P (report ∷ reports)) (get_last_sale iprot oprot rounds out appl)
        (returned (received report)) (P reports)

module _ {D : Type 0} (show_double : D → Text) where
  -- What the client shows in these turns.
  abbrev pub screen : List (Turn D) → List Text → List Text
  screen [] later = later
  screen (turn ∷ turns) later = sale_line show_double turn.0 ∷ prompt ∷ screen turns later

  module _ {W : Type 0} (zero_double : D) (iprot oprot : Protocol W D) (rounds : ℕ)
      (P : List (TradeReport D) → W → Type 0) (answers : Answers iprot oprot rounds P)
      {all : List Text} where
    pub one_turn :
        {o : Outcome (Unit {0})} {Q : W × Terminal → Type 0} (report : TradeReport D)
        (reports : List (TradeReport D)) (line : Text) (lines rest : List Text) (fuel : ℕ)
        (input : Text) (trade : TradeReport D)
        → Ends
            (Sits (P reports) lines all rest)
            (if starts_with_q line
              then return tt
              else trade_loop show_double zero_double iprot oprot rounds fuel line
                  (received report))
            o
            Q
        → Ends
            (Sits
              (P (report ∷ reports))
              (line ∷ lines)
              all
              (sale_line show_double report ∷ prompt ∷ rest))
            (trade_loop show_double zero_double iprot oprot rounds (suc fuel) input trade)
            o
            Q
    unfolding trade_loop
    one_turn report reports line lines rest fuel input trade later =
        chain _ (off_screen_ends (line ∷ lines) _ (answers report reports trade)) (
          chain _ (show_line_ends (line ∷ lines) _ _) (
            chain _ (show_line_ends (line ∷ lines) prompt rest)
              (chain _ (read_line_ends line lines rest input) later)))

    pub passes :
        {o : Outcome (Unit {0})} {Q : W × Terminal → Type 0} (turns : List (Turn D))
        (reports : List (TradeReport D)) (lines rest : List Text)
        → NoneQuits turns
        → ((fuel : ℕ) (input : Text) (trade : TradeReport D)
            → Ends
                (Sits (P reports) lines all rest)
                (trade_loop show_double zero_double iprot oprot rounds (suc fuel) input trade)
                o
                Q)
        → (fuel : ℕ) (input : Text) (trade : TradeReport D) → length turns < fuel
        → Ends
            (Sits (P (reports_of turns reports)) (lines_of turns lines) all (screen turns rest))
            (trade_loop show_double zero_double iprot oprot rounds fuel input trade)
            o
            Q
    passes [] reports lines rest none later zero input trade enough = absurd (omega arith)
    passes (turn ∷ turns) reports lines rest none later zero input trade enough =
        absurd (omega arith)
    passes [] reports lines rest none later (suc fuel) input trade enough = later fuel input trade
    passes (turn ∷ turns) reports lines rest none later (suc fuel) input trade enough =
        one_turn turn.0 (reports_of turns reports) turn.1 (lines_of turns lines) (screen turns rest)
          fuel input trade
          (rw (none.0) (
            passes turns reports lines rest none.1 later fuel turn.1 (received turn.0)
              (omega arith)))
