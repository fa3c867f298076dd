-- ===== src/UniqueId/Handler.antt =====
-- `compute_unique_id` of the six servers: of DSBUniqueIDService, which return the id as a text, and
-- of DSBUniqueIDAsyncService, whose clients wait for no answer. What the clock says, the thread and
-- the machine come with each call; the argument `id` is not used.
--
-- The mutex that the handlers lock is a local variable of each call, so it orders nothing and has no
-- part in these definitions, which are about calls one after the other. `Race` is about calls that
-- overlap.
pub mod Layout
pub mod Variants
use apache_thrift_benchmarki.Prelude.{ℕ, suc, ◌+◌, ◌-◌, ◌%◌, ◌^◌, ◌≡◌, refl, ◌++◌, List, [], ◌∷◌}
use apache_thrift_benchmarki.Prelude.Int.{ℤ, pos, negsuc, ◌-ℤ◌}
use apache_thrift_benchmarki.Format.{
  Text, codes, to_hex, to_string, strip, digits, digit_char, digit_value, scan, c_string, stoul,
  Parsed, number,
}
use apache_thrift_benchmarki.Format.Width.{fit}
use apache_thrift_benchmarki.UniqueId.Process.{
  Process, Line, Exception, Outcome, M, returned, thrown, print, say, start, return, ◌>>=◌, ◌>>◌,
}
use apache_thrift_benchmarki.UniqueId.Counter.{get_counter}
use apache_thrift_benchmarki.UniqueId.Machine.{Host, get_machine_id}

-- `CUSTOM_EPOCH`, in milliseconds since 1970.
abbrev pub custom_epoch : ℕ
custom_epoch = 1514764800000

-- What a call meets: `system_clock::now()` in milliseconds since 1970, the thread that it runs in,
-- and the machine.
pub record Call : Type 0 where
  pub now : ℤ
  pub thread : ℕ
  pub host : Host

-- An int64_t as the 64 bits that a stream prints in hexadecimal.
abbrev pub unsigned64 : ℤ → ℕ
unsigned64 (pos n) = n
unsigned64 (negsuc n) = 2 ^ 64 - suc n

-- `machine_id + timestamp_hex + counter_hex`
unfoldable pub unique_id_str : Text → ℤ → ℕ → Text
unfolding fit
unique_id_str machine_id timestamp counter_value =
    machine_id ++ (fit 10 (to_hex (unsigned64 timestamp)) ++ fit 3 (to_hex counter_value))

-- `stoul(…) & 0x7FFFFFFFFFFFFFFF`
abbrev pub masked : Parsed → M ℕ
masked (number n) p = (returned (n % 2 ^ 63), p)
masked Parsed.invalid_argument p = (thrown Exception.invalid_argument, p)
masked Parsed.out_of_range p = (thrown Exception.out_of_range, p)

-- `post_id`, the part that the six handlers have in common. What `GetMachineId` returns is not
-- looked at.
unfoldable pub post_id : Call → M ℕ
unfolding unique_id_str
post_id call = do
  let timestamp = call.now -ℤ pos custom_epoch
  counter_value ← get_counter timestamp
  machine ← get_machine_id call.host
  masked (stoul (unique_id_str machine.1 timestamp counter_value))

-- DSBUniqueIDService/threadpoolserver
unfoldable pub thread_pool_compute_unique_id : Call → M Text
thread_pool_compute_unique_id call = do id ← post_id call; return (to_string id)

-- DSBUniqueIDService/nonblocking
unfoldable pub nonblocking_compute_unique_id : Call → M Text
nonblocking_compute_unique_id call = do
  say (Line.current_thread call.thread)
  id ← post_id call
  return (to_string id)

-- DSBUniqueIDService/tthreadedserver
unfoldable pub threaded_compute_unique_id : Call → M Text
threaded_compute_unique_id call = do
  say (Line.current_thread call.thread)
  id ← post_id call
  return (to_string id)

-- DSBUniqueIDAsyncService/threadpoolserver
unfoldable pub async_thread_pool_compute_unique_id : Call → M (Unit {0})
async_thread_pool_compute_unique_id call = do id ← post_id call; say (Line.unique_id_is id)

-- DSBUniqueIDAsyncService/nonblockingserver
unfoldable pub async_nonblocking_compute_unique_id : Call → M (Unit {0})
async_nonblocking_compute_unique_id call = do
  say (Line.current_thread call.thread)
  id ← post_id call
  say (Line.unique_id_is id)

-- DSBUniqueIDAsyncService/tthreadedserver: the id goes nowhere.
unfoldable pub async_threaded_compute_unique_id : Call → M (Unit {0})
async_threaded_compute_unique_id call = do
  say (Line.current_thread call.thread)
  id ← post_id call
  return tt
