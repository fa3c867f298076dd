-- ===== src/UniqueId/Uniqueness/Collision.antt =====
-- Calls that get the same identifier.
use apache_thrift_benchmarki.Prelude.{
  ℕ, ◌+◌, ◌%◌, ◌^◌, ◌<◌, ◌≡◌, refl, sym, ap, ◌∙◌, arith, [], ◌∷◌, List, ◌≤◌, ◌↔◌, length,
}
use apache_thrift_benchmarki.Prelude.Int.{ℤ, int_max}
use apache_thrift_benchmarki.UniqueId.Process.{Process, returned, and_then}
use apache_thrift_benchmarki.UniqueId.Counter.{get_counter}
use apache_thrift_benchmarki.UniqueId.Counter.Occurrences.{get_counter_same}
use apache_thrift_benchmarki.UniqueId.Machine.{Host, find_mac}
use apache_thrift_benchmarki.UniqueId.Machine.Hash.{hash_mac_address_pid-eq}
use apache_thrift_benchmarki.UniqueId.Machine.Answer.{
  Survey, no_socket, no_interfaces, listed, survey, surveyed,
}
use apache_thrift_benchmarki.UniqueId.Handler.{Call, post_id, unsigned64}
use apache_thrift_benchmarki.UniqueId.Handler.Layout.{
  machine_number, whole_number, id_number, timestamp_of, post_id_lem,
}

post_id_same :
    (call : Call) (p : Process)
    → p.current_timestamp ≡ timestamp_of call
    → p.counter < int_max
    → (post_id call p).0 ≡ returned (id_number call.host (timestamp_of call) p.counter)
post_id_same call p now room =
    rw (post_id_lem call p) (rw (get_counter_same (timestamp_of call) p.counter p now refl room))

-- The state after these calls, one after the other.
abbrev pub after_calls : List Call → Process → Process
after_calls [] p = p
after_calls (call ∷ calls) p = after_calls calls (post_id call p).1

-- Every call has this timestamp.
abbrev pub AllAt : ℤ → List Call → Type 0
AllAt t [] = Unit {0}
AllAt t (call ∷ calls) = (timestamp_of call ≡ t) × AllAt t calls

surveyed-counter : (s : Survey) (q : Process) → (surveyed s q).counter ≡ q.counter
surveyed-counter no_socket q = refl
surveyed-counter no_interfaces q = refl
surveyed-counter (listed ifrs) q = refl

surveyed-timestamp :
    (s : Survey) (q : Process) → (surveyed s q).current_timestamp ≡ q.current_timestamp
surveyed-timestamp no_socket q = refl
surveyed-timestamp no_interfaces q = refl
surveyed-timestamp (listed ifrs) q = refl

-- A call leaves its timestamp and one more in the counter.
post_id_counts :
    (call : Call) (p : Process) (t : ℤ)
    → p.current_timestamp ≡ t
    → timestamp_of call ≡ t
    → p.counter < int_max
    → ((post_id call p).1.current_timestamp ≡ t) × ((post_id call p).1.counter ≡ p.counter + 1)
post_id_counts call p t now same room = rw (post_id_lem call p) (
    rw (get_counter_same (timestamp_of call) p.counter p (now ∙ sym same) refl room)
      (surveyed-timestamp (survey call.host) _ ∙ same, surveyed-counter (survey call.host) _))

after_calls_counts :
    (calls : List Call) (p : Process) (t : ℤ)
    → p.current_timestamp ≡ t
    → AllAt t calls
    → p.counter + length calls < int_max
    → ((after_calls calls p).current_timestamp ≡ t)
      × ((after_calls calls p).counter ≡ p.counter + length calls)
after_calls_counts [] p t now all room = (now, omega arith)
after_calls_counts (call ∷ calls) p t now all room =
    let (at, count) = post_id_counts call p t now all.0 (omega arith) in
    let (at', count') = after_calls_counts calls (post_id call p).1 t at all.1 (omega arith) in
    (at', omega arith)

-- k calls later, k at most 4096, the number is the same at 4096 alone.
whole_number-same :
    (machine time count k : ℕ)
    → 0 < k
    → k ≤ 2 ^ 12
    → (whole_number machine time count % 2 ^ 63 ≡ whole_number machine time (count + k) % 2 ^ 63)
      ↔ (k ≡ 2 ^ 12)
whole_number-same machine time count k some few = (λ h. omega arith, λ h. omega arith)

-- In a process whose latest timestamp is theirs, of a call of post_id, any fewer than 4096 further
-- calls of the same millisecond, and then the first call again, the first and the last both return
-- a number, and these two are the same exactly where the last is the 4096th after the first, while
-- the counter stays within an int.
pub post_id_repeats :
    (call : Call) (between : List Call) (p : Process)
    → p.current_timestamp ≡ timestamp_of call
    → AllAt (timestamp_of call) between
    → length between < 2 ^ 12
    → p.counter + length between + 1 < int_max
    → (first again : ℕ) × ((post_id call p).0 ≡ returned first)
      × ((post_id call (after_calls (call ∷ between) p)).0 ≡ returned again)
      × ((first ≡ again) ↔ (length between + 1 ≡ 2 ^ 12))
post_id_repeats call between p now all few room =
    let (at, count) = after_calls_counts (call ∷ between) p _ now (refl, all) (omega arith) in
    (
      id_number call.host (timestamp_of call) p.counter,
      id_number call.host (timestamp_of call) (p.counter + (length between + 1)),
      post_id_same call p now (omega arith),
      post_id_same call (after_calls (call ∷ between) p) at (omega arith)
          ∙ ap (λ n. returned (id_number call.host (timestamp_of call) n)) (omega arith),
      whole_number-same (machine_number call.host (survey call.host))
          (unsigned64 (timestamp_of call)) p.counter (length between + 1) (omega arith)
          (omega arith),
    )

-- The same call in another process of the machine.
abbrev pub in_process : ℕ → Call → Call
in_process pid call = record call { host = record call.host { pid = pid } }

machine_number-pid :
    (host : Host) (pid : ℕ) (s : Survey)
    → ((i : ℕ) → host.beyond i ≡ 0)
    → machine_number host s ≡ machine_number (record host { pid = pid }) s
machine_number-pid host pid no_socket blank = refl
machine_number-pid host pid no_interfaces blank = refl
machine_number-pid host pid (listed ifrs) blank =
    ap (λ h. h % 2 ^ 12)
      (hash_mac_address_pid-eq (find_mac ifrs []) host.beyond blank host.pid
        ∙ sym (hash_mac_address_pid-eq (find_mac ifrs []) host.beyond blank pid))

-- Where the memory behind the text of the MAC address holds zeros, the process id makes no
-- difference: in the same state of the static variables, a call has the same outcome whatever the
-- process id.
pub post_id-pid :
    (call : Call) (pid : ℕ) (p : Process)
    → ((i : ℕ) → call.host.beyond i ≡ 0)
    → post_id call p ≡ post_id (in_process pid call) p
post_id-pid call pid p blank =
    post_id_lem call p
    ∙ ap
        (λ m. and_then (get_counter (timestamp_of call) p) (λ count q. (
          returned (whole_number m (unsigned64 (timestamp_of call)) count % 2 ^ 63),
          surveyed (survey call.host) q,
        )))
        (machine_number-pid call.host pid (survey call.host) blank)
    ∙ sym (post_id_lem (in_process pid call) p)
