-- ===== src/UniqueId/Counter.antt =====
-- `get_counter`: the number of earlier calls with the same timestamp. The proofs are in the modules
-- below.
pub mod Occurrences
use apache_thrift_benchmarki.Prelude.{
  ℕ, zero, suc, ◌+◌, ◌-◌, ◌^◌, ◌≤◌, ◌<◌, ◌≡◌, ◌≢◌, refl, Bool, true, false, arith, ltb, ◌==◌,
  if◌then◌else◌, List, [], ◌∷◌,
}
use apache_thrift_benchmarki.Prelude.Int.{
  ℤ, pos, negsuc, pos_part, neg_part, ltb_ℤ, ◌≤ℤ◌, eq_ℤ, int_max,
}
use apache_thrift_benchmarki.UniqueId.Process.{
  Process, Line, Outcome, M, returned, exit_failure, undefined, print, start, return, ◌>>=◌,
}

-- `return counter++`
unfoldable pub post_increment : M ℕ
post_increment p =
    if ltb p.counter int_max
    then (returned p.counter, record p { counter = p.counter + 1 })
    else (undefined, p)

unfoldable pub get_counter : ℤ → M ℕ
unfolding post_increment
get_counter timestamp p =
    if ltb_ℤ timestamp p.current_timestamp
    then (exit_failure, print Line.timestamps_not_incremental p)
    else if eq_ℤ p.current_timestamp timestamp
    then post_increment p
    else post_increment (record p { current_timestamp = timestamp; counter = 0 })

-- The calls of one process, a timestamp for each.
unfoldable pub counters : List ℤ → M (List ℕ)
unfolding get_counter
counters [] = return []
counters (t ∷ ts) = do c ← get_counter t; cs ← counters ts; return (c ∷ cs)
