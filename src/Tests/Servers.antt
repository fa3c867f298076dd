-- ===== src/Tests/Servers.antt =====
-- The trade report server from its start to its end.
use apache_thrift_benchmarki.Prelude.{ℕ, ◌≡◌, refl, arith, List, [], ◌∷◌}
use apache_thrift_benchmarki.Format.{Text, codes, show_ℤ, to_string, strip, digits, digit_char}
use apache_thrift_benchmarki.Rpc.Wire.{returned}
use apache_thrift_benchmarki.Rpc.Wire.Ends.{Ends}
use apache_thrift_benchmarki.Rpc.Terminal.{At}
use apache_thrift_benchmarki.TradeHistory.Console.{Serving, status, waiting, exiting, server_main}
use apache_thrift_benchmarki.TradeHistory.Console.Quit.{statuses, server_main-quits}

-- Its phases: 0 before the start, 1 while it serves, 2 when it is told to stop, 3 at the end.
abbrev phased : Serving ℕ
phased = record {
  start = λ w. (returned tt, 1);
  num_io_threads = λ w. (returned 3, w);
  worker_count = λ w. (returned 1, w);
  stop = λ w. (returned tt, 2);
  join = λ w. (returned tt, 3);
}

abbrev In : ℕ → ℕ → Type 0
In phase w = w ≡ phase

status_shown : status 4 3 1 ≡ codes "[Server (4, 3/1):9090] Enter 'q' to quit"
unfolding show_ℤ to_string strip digits digit_char
status_shown = refl

abbrev typed : List Text
typed = codes "go on" ∷ [] ∷ []

server_main-quits_example :
    Ends
      (At (In 0) (codes "go on" ∷ [] ∷ codes "q" ∷ codes "later" ∷ []) [])
      (server_main phased 4 3)
      (returned tt)
      (At
        (In 3)
        (codes "later" ∷ [])
        (statuses (status 4 3 1) typed (status 4 3 1 ∷ waiting ∷ exiting ∷ [])))
server_main-quits_example =
    server_main-quits phased 4 3 1 {P = In 1} (record { at = λ w h. (w, refl, h) })
      (record { at = λ w h. (w, refl, h) }) {Stopped = In 2} typed (codes "q") (codes "later" ∷ [])
      [] 3 (record { at = λ w h. (1, refl, refl) }) (record { at = λ w h. (2, refl, refl) })
      (record { at = λ w h. (3, refl, refl) }) (refl, (refl, tt)) refl (omega arith)
