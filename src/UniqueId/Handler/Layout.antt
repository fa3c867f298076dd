-- ===== src/UniqueId/Handler/Layout.antt =====
-- The bits of an identifier: 11 of the machine, 40 of the time and 12 of the counter.
use mathlib.Core.Path.{fun_ext}
use apache_thrift_benchmarki.Prelude.{
  ℕ, ◌+◌, ◌*◌, ◌%◌, ◌^◌, ◌<◌, ◌≡◌, refl, ap, ◌∙◌, [], ◌++◌, arith, length, length-append,
}
use apache_thrift_benchmarki.Prelude.Int.{ℤ, pos, ◌-ℤ◌}
use apache_thrift_benchmarki.Format.{Text, digits, scan, stoul, number}
use apache_thrift_benchmarki.Format.Width.{fit-to_hex, length-digits}
use apache_thrift_benchmarki.Format.RoundTrip.{
  IsHex, IsHex-append, IsHex-digits, scan-append, scan-digits, stoul_of_hex,
}
use apache_thrift_benchmarki.UniqueId.Process.{Process, returned, and_then}
use apache_thrift_benchmarki.UniqueId.Counter.{get_counter}
use apache_thrift_benchmarki.UniqueId.Machine.{Host, find_mac, hash_mac_address_pid, get_machine_id}
use apache_thrift_benchmarki.UniqueId.Machine.Answer.{
  Survey, no_socket, no_interfaces, listed, survey, answer, surveyed, get_machine_id_lem,
}
use apache_thrift_benchmarki.UniqueId.Handler.{
  Call, custom_epoch, unsigned64, unique_id_str, masked, post_id,
}

-- What the machine contributes: the low 12 bits of the hash, or 0 where `GetMachineId` fails.
abbrev pub machine_number : Host → Survey → ℕ
machine_number host no_socket = 0
machine_number host no_interfaces = 0
machine_number host (listed ifrs) =
    hash_mac_address_pid (find_mac ifrs []) host.beyond host.pid % 2 ^ 12

-- The number that the hexadecimal text of an id stands for.
abbrev pub whole_number : ℕ → ℕ → ℕ → ℕ
whole_number machine time count = machine * 2 ^ 52 + time % 2 ^ 40 * 2 ^ 12 + count % 2 ^ 12

module _ (host : Host) where
  machine_number-lt : (s : Survey) → machine_number host s < 2 ^ 12
  machine_number-lt no_socket = omega arith
  machine_number-lt no_interfaces = omega arith
  machine_number-lt (listed ifrs) = omega arith

  IsHex-answer : (s : Survey) → IsHex (answer host s).1
  IsHex-answer no_socket = tt
  IsHex-answer no_interfaces = tt
  IsHex-answer (listed ifrs) = IsHex-digits 16 3 _ (omega arith) (omega arith)

  scan-answer : (s : Survey) → scan 16 0 (answer host s).1 ≡ machine_number host s
  unfolding scan
  scan-answer no_socket = refl
  scan-answer no_interfaces = refl
  scan-answer (listed ifrs) =
      scan-digits 16 3 0 (hash_mac_address_pid (find_mac ifrs []) host.beyond host.pid)
        (omega arith) (omega arith)
      ∙ omega arith

unique_id_str-digits :
    (machine : Text) (timestamp : ℤ) (count : ℕ)
    → unique_id_str machine timestamp count
      ≡ machine ++ (digits 16 10 (unsigned64 timestamp) ++ digits 16 3 count)
unfolding unique_id_str
unique_id_str-digits machine timestamp count =
    rw (fit-to_hex 10 6 (unsigned64 timestamp) refl, fit-to_hex 3 13 count refl)

module _ (machine : Text) (m t c : ℕ) (hex : IsHex machine) (value : scan 16 0 machine ≡ m) where
  scan-unique_id : scan 16 0 (machine ++ (digits 16 10 t ++ digits 16 3 c)) ≡ whole_number m t c
  scan-unique_id =
      scan-append 16 0 machine (digits 16 10 t ++ digits 16 3 c) hex
      ∙ scan-append 16 (scan 16 0 machine) (digits 16 10 t) (digits 16 3 c)
          (IsHex-digits 16 10 t (omega arith) (omega arith))
      ∙ omega (
        arith,
        value,
        scan-digits 16 10 (scan 16 0 machine) t,
        scan-digits 16 3 (scan 16 (scan 16 0 machine) (digits 16 10 t)) c,
      )

-- The id that is made of a machine, a timestamp and a counter.
abbrev pub id_number : Host → ℤ → ℕ → ℕ
id_number host timestamp count =
    whole_number (machine_number host (survey host)) (unsigned64 timestamp) count % 2 ^ 63

stoul_unique_id :
    (host : Host) (s : Survey) (timestamp : ℤ) (count : ℕ)
    → stoul (unique_id_str (answer host s).1 timestamp count)
      ≡ number (whole_number (machine_number host s) (unsigned64 timestamp) count)
stoul_unique_id host s timestamp count =
    ap stoul (unique_id_str-digits (answer host s).1 timestamp count)
    ∙ stoul_of_hex text some_digit hex (omega (arith, value, machine_number-lt host s))
    ∙ ap number value
  where
    text : Text
    text = (answer host s).1 ++ (digits 16 10 (unsigned64 timestamp) ++ digits 16 3 count)

    rest : Text
    rest = digits 16 10 (unsigned64 timestamp) ++ digits 16 3 count

    some_digit : 0 < length text
    some_digit = omega (
      arith,
      length-append (answer host s).1 rest,
      length-append (digits 16 10 (unsigned64 timestamp)) (digits 16 3 count),
      length-digits 16 3 count,
    )

    hex : IsHex text
    hex = IsHex-append (answer host s).1 rest (IsHex-answer host s) (
        IsHex-append (digits 16 10 (unsigned64 timestamp)) (digits 16 3 count)
          (IsHex-digits 16 10 (unsigned64 timestamp) (omega arith) (omega arith))
          (IsHex-digits 16 3 count (omega arith) (omega arith)))

    value : scan 16 0 text ≡ whole_number (machine_number host s) (unsigned64 timestamp) count
    value =
        scan-unique_id (answer host s).1 (machine_number host s) (unsigned64 timestamp) count
          (IsHex-answer host s) (scan-answer host s)

abbrev pub timestamp_of : Call → ℤ
timestamp_of call = call.now -ℤ pos custom_epoch

-- On every path post_id does what get_counter does and then, if that returned, returns the number
-- with the machine in the bits from 52 on, 40 bits of the timestamp from bit 12 on and 12 bits of
-- the counter, cut to 63 bits; stoul never throws.
pub post_id_lem :
    (call : Call) (p : Process)
    → post_id call p
      ≡ and_then (get_counter (timestamp_of call) p) (λ count q.
        (returned (id_number call.host (timestamp_of call) count), surveyed (survey call.host) q))
unfolding post_id
post_id_lem call p =
    ap (and_then (get_counter (timestamp_of call) p)) (fun_ext λ count. fun_ext λ q. tail count q)
  where
    tail :
        (count : ℕ) (q : Process)
        → and_then
            (get_machine_id call.host q)
            (λ machine. masked (stoul (unique_id_str machine.1 (timestamp_of call) count)))
          ≡ (
            returned (id_number call.host (timestamp_of call) count),
            surveyed (survey call.host) q,
          )
    tail count q =
        rw (get_machine_id_lem call.host q)
          (rw (stoul_unique_id call.host (survey call.host) (timestamp_of call) count))
