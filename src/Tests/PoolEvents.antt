-- ===== src/Tests/PoolEvents.antt =====
-- The event handler over a thread manager of busy and idle workers.
use apache_thrift_benchmarki.Prelude.{
  ℕ, zero, suc, ◌+◌, ◌-◌, ◌<◌, ◌≤◌, ◌≡◌, refl, List, [], ◌∷◌, some, none, arith, get_elem?,
}
use apache_thrift_benchmarki.Format.{codes, to_string, strip, digits, digit_char}
use apache_thrift_benchmarki.PoolEvents.{
  ThreadManager, IsThreadManager, Pool, stats, create_context, delete_context, process_context,
  grow,
}
use apache_thrift_benchmarki.PoolEvents.Size.{size, Reach-Within}
use apache_thrift_benchmarki.PoolEvents.Steps.{create_begin, delete_begin, finished, delete_after}
use apache_thrift_benchmarki.PoolEvents.Alone.{alone, events_alone}
use apache_thrift_benchmarki.PoolEvents.Overshoot.{overshot, overshot-Reach}
use apache_thrift_benchmarki.PoolEvents.Calls.{Event, create, process, run, run-calls_in}
use apache_thrift_benchmarki.PoolEvents.Calls.Session.{session, session_ends}

record Workers : Type 0 where
  busy : ℕ
  idle : ℕ
  pending : ℕ

take_worker : ℕ → ℕ → ℕ → Workers
take_worker busy zero pending = record { busy = busy - 1; idle = 0; pending = pending }
take_worker busy (suc idle) pending = record { busy = busy; idle = idle; pending = pending }

abbrev workers : ThreadManager Workers
workers = record {
  worker_count = λ t. t.busy + t.idle;
  idle_worker_count = λ t. t.idle;
  pending_task_count = λ t. t.pending;
  add_worker = λ t. record t { idle = t.idle + 1 };
  remove_worker = λ t. take_worker t.busy t.idle t.pending;
}

take_worker-count :
    (busy idle pending : ℕ)
    → 0 < busy + idle
    → (take_worker busy idle pending).busy + (take_worker busy idle pending).idle + 1 ≡ busy + idle
unfolding take_worker
take_worker-count busy zero pending h = omega arith
take_worker-count busy (suc idle) pending h = omega arith

workers-IsThreadManager : IsThreadManager workers
unfolding take_worker
workers-IsThreadManager = record {
  adds = λ t. omega arith;
  removes = λ t h. take_worker-count t.busy t.idle t.pending h;
  idle_among = λ t. omega arith;
}

-- `newSimpleThreadManager(1, 8)` with its one worker busy.
abbrev one_busy : Pool Workers
one_busy = record { manager = record { busy = 1; idle = 0; pending = 0 }; cells = []; output = [] }

abbrev half_idle : Workers
half_idle = record { busy = 1; idle = 1; pending = 0 }

stats_test : stats workers 0 half_idle ≡ codes "(threads in use: 1/2 - connections waiting: 0)"
unfolding stats to_string strip digits digit_char take_worker
stats_test = refl

grows_test : (create_context workers 8 one_busy).1.manager ≡ half_idle
unfolding create_context grow take_worker
grows_test = refl

-- Where two workers are allowed, two connections that come at once make it three.
overshot_test :
    (overshot workers 1 2 one_busy).pool.manager ≡ record { busy = 1; idle = 2; pending = 0 }
overshot_test = refl

Reach-Within_example :
    (1 ≤ size workers (overshot workers 1 2 one_busy).pool + 1)
    × (size workers (overshot workers 1 2 one_busy).pool ≤ 2 + 1)
Reach-Within_example =
    Reach-Within workers workers-IsThreadManager 1 2 1 one_busy (omega arith) (omega arith)
      (overshot-Reach workers 1 2 one_busy refl refl)

abbrev served : Pool Workers
served = record one_busy { cells = some 3 ∷ [] }

events_alone_example :
    (alone workers 1 8 6 create_begin served ≡ some (finished, (create_context workers 8 served).1))
    × (alone workers 1 8 7 (delete_begin 0) served
        ≡ delete_after workers 1 8 0 (delete_context workers 1 0 served))
events_alone_example = events_alone workers 1 8 0 served

session_ends_example :
    (s' : Pool Workers) × (run workers 1 8
        (create ∷ session workers 1 8 (create_context workers 8 one_busy).0 2)
        one_busy
      ≡ some s')
    × (get_elem? s'.cells (create_context workers 8 one_busy).0 ≡ some none)
session_ends_example = session_ends workers 1 8 2 one_busy (omega arith)

-- Two connections, three calls.
abbrev two_connections : Pool Workers
two_connections = record one_busy { cells = some 0 ∷ some 4 ∷ [] }

abbrev three_events : List Event
three_events = process 0 ∷ process 1 ∷ process 0 ∷ []

after_three : Pool Workers
after_three = record two_connections {
  cells = some 2 ∷ some 5 ∷ [];
  output =
      codes "    Client call #1" ∷ codes "    Client call #5" ∷ codes "    Client call #2" ∷ [];
}

three_events_pass : run workers 1 8 three_events two_connections ≡ some after_three
unfolding run process_context to_string strip digits digit_char after_three
three_events_pass = refl

run-calls_in_example : get_elem? after_three.cells 0 ≡ some (some 2)
run-calls_in_example =
    run-calls_in workers 1 8 three_events two_connections after_three 0 0 three_events_pass
      (tt, (tt, (tt, tt))) refl
