-- ===== src/Tests/Race.antt =====
-- Two calls at once.
use apache_thrift_benchmarki.Prelude.{ℕ, ◌≡◌, refl, arith}
use apache_thrift_benchmarki.Prelude.Int.{pos}
use apache_thrift_benchmarki.UniqueId.Process.{start}
use apache_thrift_benchmarki.UniqueId.Counter.{get_counter}
use apache_thrift_benchmarki.UniqueId.Race.{
  Shared, System, Reach, Run, both_enter, answered, entered, ended, shared, same_answer,
  get_counter-Run,
}

abbrev fifth : Shared
fifth = record { current_timestamp = pos 5; counter = 3 }

same_answer_example :
    (c : ℕ) × (s : System) × Reach (both_enter fifth (pos 5)) s
    × (s.first ≡ answered (pos 5) c)
    × (s.second ≡ answered (pos 5) c)
same_answer_example = same_answer fifth (pos 5) refl (omega arith)

get_counter-Run_example :
    Run
      (shared start)
      (entered (pos 5))
      (shared (get_counter (pos 5) start).1)
      (ended (pos 5) start (get_counter (pos 5) start).0)
get_counter-Run_example = get_counter-Run (pos 5) start
