-- ===== src/Tests/UniqueId.antt =====
-- The unique id servers on a machine with two network cards.
use apache_thrift_benchmarki.Prelude.{
  ℕ, ◌+◌, ◌^◌, ◌≡◌, refl, List, [], ◌∷◌, length, true, some, arith, replicate, zero, suc, ◌↔◌,
}
use mathlib.Core.List.{Nodup}
use apache_thrift_benchmarki.Prelude.Lists.{length-replicate}
use apache_thrift_benchmarki.Prelude.Int.{pos, ◌-ℤ◌}
use apache_thrift_benchmarki.Format.{
  Text, codes, to_hex, to_string, strip, digits, digit_char, digit_value, scan, c_string, stoul,
}
use apache_thrift_benchmarki.UniqueId.Process.{
  Process, Line, returned, exit_failure, print, start, and_then,
}
use apache_thrift_benchmarki.UniqueId.Counter.{get_counter, counters}
use apache_thrift_benchmarki.UniqueId.Counter.Occurrences.{expected, counters-expected}
use apache_thrift_benchmarki.UniqueId.Machine.{Host, Interface, get_machine_id}
use apache_thrift_benchmarki.UniqueId.Machine.Answer.{survey, answer, surveyed, get_machine_id_lem}
use apache_thrift_benchmarki.UniqueId.Handler.{
  Call, custom_epoch, post_id, thread_pool_compute_unique_id, nonblocking_compute_unique_id,
  threaded_compute_unique_id, async_thread_pool_compute_unique_id,
  async_nonblocking_compute_unique_id, async_threaded_compute_unique_id,
}
use apache_thrift_benchmarki.UniqueId.Handler.Layout.{id_number, timestamp_of, post_id_lem}
use apache_thrift_benchmarki.UniqueId.Handler.Variants.{
  compute_unique_id-same, async_compute_unique_id-prints,
}
use apache_thrift_benchmarki.UniqueId.Uniqueness.{serve}
use apache_thrift_benchmarki.UniqueId.Uniqueness.Distinct.{serve-Nodup}
use apache_thrift_benchmarki.UniqueId.Uniqueness.Collision.{
  in_process, after_calls, AllAt, post_id_repeats, post_id-pid,
}

three_calls : (counters (pos 5 ∷ pos 5 ∷ pos 9 ∷ []) start).0 ≡ returned (0 ∷ 1 ∷ 0 ∷ [])
unfolding counters
three_calls = refl

clock_set_back : (counters (pos 5 ∷ pos 4 ∷ []) start).0 ≡ exit_failure
unfolding counters
clock_set_back = refl

-- A loopback interface with the address 0, and a network card.
abbrev pub two_cards : Host
two_cards = record {
  socket = true;
  interfaces = some (
      record { flags = true; hwaddr = some (0 ∷ 0 ∷ []) }
      ∷ record { flags = true; hwaddr = some (2 ∷ 0x42 ∷ 0xac ∷ 0x11 ∷ 5 ∷ 2 ∷ 0 ∷ []) }
      ∷ []);
  pid = 7;
  beyond = λ _. 0;
}

two_cards_machine_id : (get_machine_id two_cards start).0 ≡ returned (pos 0, codes "4b3")
unfolding get_machine_id to_hex to_string strip digits digit_char c_string
two_cards_machine_id = refl

abbrev pub a_call : Call
a_call = record { now = pos (custom_epoch + 0x12345); thread = 1; host = two_cards }

a_call_id : (thread_pool_compute_unique_id a_call start).0 ≡ returned (to_string 0x4b30000012345000)
unfolding thread_pool_compute_unique_id post_id get_counter get_machine_id to_hex to_string strip
    digits digit_char c_string ◌-ℤ◌ stoul digit_value scan
a_call_id = refl

counters-expected_example :
    (counters (pos 5 ∷ pos 5 ∷ pos 9 ∷ []) start).0
    ≡ returned (expected [] (pos 5 ∷ pos 5 ∷ pos 9 ∷ []))
counters-expected_example =
    counters-expected (pos 5 ∷ pos 5 ∷ pos 9 ∷ []) (omega arith) (omega arith)

abbrev card : Interface
card = record { flags = true; hwaddr = some (2 ∷ 7 ∷ 0 ∷ []) }

abbrev loopback : Interface
loopback = record { flags = true; hwaddr = some (0 ∷ []) }

-- A process that served one call in the first millisecond of the custom epoch.
abbrev served : Process
served = record start { current_timestamp = pos 0; counter = 1 }

abbrev pub first_call : Call
first_call = record { now = pos custom_epoch; thread = 1; host = two_cards }

AllAt-replicate : (n : ℕ) (call : Call) → AllAt (timestamp_of call) (replicate n call)
AllAt-replicate zero call = tt
AllAt-replicate (suc n) call = (refl, AllAt-replicate n call)

abbrev many : List Call
many = replicate 4095 first_call

post_id_repeats_example :
    (first again : ℕ) × ((post_id first_call served).0 ≡ returned first)
    × ((post_id first_call (after_calls (first_call ∷ many) served)).0 ≡ returned again)
    × ((first ≡ again) ↔ (length many + 1 ≡ 2 ^ 12))
unfolding ◌-ℤ◌
post_id_repeats_example =
    post_id_repeats first_call many served refl (AllAt-replicate 4095 first_call)
      (omega (arith, length-replicate 4095 first_call))
      (omega (arith, length-replicate 4095 first_call))

post_id-pid_example : post_id a_call start ≡ post_id (in_process 4711 a_call) start
post_id-pid_example = post_id-pid a_call 4711 start (λ i. refl)

abbrev pub calls : List Call
calls = first_call ∷ first_call ∷ a_call ∷ []

serve-Nodup_example :
    (texts : List Text) × ((serve calls start).0 ≡ returned texts)
    × (length texts ≡ length calls)
    × Nodup texts
unfolding ◌-ℤ◌
serve-Nodup_example = serve-Nodup two_cards calls (refl, (refl, (refl, tt))) (omega arith)

async_prints_example :
    let q = print (Line.current_thread 1) start in
    ((id : ℕ) × (to_string id ≡ to_string 0x4b30000012345000)
      × (async_thread_pool_compute_unique_id a_call start
          ≡ (returned tt, print (Line.unique_id_is id) (post_id a_call start).1)))
    × ((id : ℕ) × (to_string id ≡ to_string 0x4b30000012345000)
        × (async_nonblocking_compute_unique_id a_call start
            ≡ (returned tt, print (Line.unique_id_is id) (post_id a_call q).1)))
    × (async_threaded_compute_unique_id a_call start ≡ (returned tt, (post_id a_call q).1))
async_prints_example = async_compute_unique_id-prints a_call start a_call_id

get_machine_id_lem_example :
    get_machine_id two_cards start
    ≡ (returned (answer two_cards (survey two_cards)), surveyed (survey two_cards) start)
get_machine_id_lem_example = get_machine_id_lem two_cards start

post_id_lem_example :
    post_id a_call start
    ≡ and_then (get_counter (timestamp_of a_call) start) (λ count q.
      (returned (id_number two_cards (timestamp_of a_call) count), surveyed (survey two_cards) q))
post_id_lem_example = post_id_lem a_call start

compute_unique_id-same_example :
    ((nonblocking_compute_unique_id a_call start).0
      ≡ (thread_pool_compute_unique_id a_call start).0)
    × ((threaded_compute_unique_id a_call start).0 ≡ (thread_pool_compute_unique_id a_call start).0)
compute_unique_id-same_example = compute_unique_id-same a_call start
