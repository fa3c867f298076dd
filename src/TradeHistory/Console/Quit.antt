-- ===== src/TradeHistory/Console/Quit.antt =====
-- How the trade report server ends.
use apache_thrift_benchmarki.Prelude.{
  ℕ, zero, suc, ◌<◌, ◌≡◌, arith, true, false, List, [], ◌∷◌, ◌++◌, if◌then◌else◌, length,
}
use apache_thrift_benchmarki.Format.{Text}
use apache_thrift_benchmarki.Rpc.Wire.{Outcome, returned, return}
use apache_thrift_benchmarki.Rpc.Wire.Ends.{Ends, chain, return_ends}
use apache_thrift_benchmarki.Rpc.Terminal.{
  Terminal, starts_with_q, Sits, off_screen_ends, show_line_ends, read_line_ends, At, seated,
}
use apache_thrift_benchmarki.TradeHistory.Console.{
  Serving, status, waiting, exiting, status_loop, server_main,
}

-- The line is one with which the user goes on.
abbrev pub NoneQ : List Text → Type 0
NoneQ [] = Unit {0}
NoneQ (line ∷ lines) = (starts_with_q line ≡ false) × NoneQ lines

-- One line of status for each line that is entered.
abbrev pub statuses : Text → List Text → List Text → List Text
statuses line [] later = later
statuses line (_ ∷ lines) later = line ∷ statuses line lines later

module _ {W : Type 0} (serving : Serving W) (hw_threads io_threads workers : ℕ) {P : W → Type 0}
    (asks_io : Ends P serving.num_io_threads (returned io_threads) P)
    (asks_workers : Ends P serving.worker_count (returned workers) P) where
  abbrev line_of_status : Text
  line_of_status = status hw_threads io_threads workers

  one_status :
      {all : List Text} {o : Outcome (Unit {0})} {Q : W × Terminal → Type 0} (line : Text)
      (lines rest : List Text) (fuel : ℕ) (str : Text)
      → Ends
          (Sits P lines all rest)
          (if starts_with_q line then return tt else status_loop serving hw_threads fuel line)
          o
          Q
      → Ends
          (Sits P (line ∷ lines) all (line_of_status ∷ rest))
          (status_loop serving hw_threads (suc fuel) str)
          o
          Q
  unfolding status_loop
  one_status line lines rest fuel str later = chain _ (off_screen_ends (line ∷ lines) _ asks_io) (
      chain _ (off_screen_ends (line ∷ lines) _ asks_workers) (
        chain _ (show_line_ends (line ∷ lines) _ rest)
          (chain _ (read_line_ends line lines rest str) later)))

  loop_ends :
      {all : List Text} (others : List Text) (quit : Text) (lines rest : List Text) (fuel : ℕ)
      (str : Text)
      → NoneQ others
      → starts_with_q quit ≡ true
      → length others < fuel
      → Ends
          (Sits P
            (others ++ quit ∷ lines)
            all
            (statuses line_of_status others (line_of_status ∷ rest)))
          (status_loop serving hw_threads fuel str)
          (returned tt)
          (Sits P lines all rest)
  loop_ends [] quit lines rest zero str none is_q enough = absurd (omega arith)
  loop_ends (line ∷ others) quit lines rest zero str none is_q enough = absurd (omega arith)
  loop_ends [] quit lines rest (suc fuel) str none is_q enough =
      one_status quit lines rest fuel str (rw is_q (return_ends tt))
  loop_ends (line ∷ others) quit lines rest (suc fuel) str none is_q enough =
      one_status line (others ++ quit ∷ lines) _ fuel str
        (rw (none.0) (loop_ends others quit lines rest fuel line none.1 is_q (omega arith)))

  -- Where the server starts, stops and is joined, and keeps its numbers of I/O threads and workers
  -- while it serves, main of the trade report server ends when its user enters a line that begins
  -- with q, if the lines before it are fewer than the fuel: it has shown its status once for each
  -- line that was read, has stopped the server and waited for its thread, with a line for each, and
  -- read no further.
  pub server_main-quits :
      {Outside Stopped Ended : W → Type 0} (others : List Text) (quit : Text)
      (lines before : List Text) (fuel : ℕ)
      → Ends Outside serving.start (returned tt) P
      → Ends P serving.stop (returned tt) Stopped
      → Ends Stopped serving.join (returned tt) Ended
      → NoneQ others
      → starts_with_q quit ≡ true
      → length others < fuel
      → Ends
          (At Outside (others ++ quit ∷ lines) before)
          (server_main serving hw_threads fuel)
          (returned tt)
          (At Ended lines
            (before ++ statuses line_of_status others (line_of_status ∷ waiting ∷ exiting ∷ [])))
  unfolding server_main
  server_main-quits others quit lines before fuel starts stops joins none is_q enough =
      seated (statuses line_of_status others (line_of_status ∷ waiting ∷ exiting ∷ [])) (
        chain _ (off_screen_ends _ _ starts) (
          chain _ (loop_ends others quit lines (waiting ∷ exiting ∷ []) fuel [] none is_q enough) (
            chain _ (off_screen_ends lines _ stops) (
              chain _ (show_line_ends lines waiting _)
                (chain _ (off_screen_ends lines _ joins) (show_line_ends lines exiting []))))))
