-- ===== src/PoolEvents.antt =====
-- server_event_handler.cpp: `PoolSvrEvtHandler`, which the thread pool servers of EchoService,
-- DSBUniqueIDService, DSBUniqueIDAsyncService and MLInfer share. It prints how busy the pool is and
-- changes its size as connections come and go.
--
-- Thrift's ThreadManager is no code of this repository: it is a parameter, a record of its operations
-- on some type of states, with what the handler relies on in `IsThreadManager`.
--
-- `create_context` and `delete_context` are what an event does that nothing comes between; the server
-- calls them from its worker threads, and Steps has them operation by operation, as they overlap.
pub mod Steps
pub mod Alone
pub mod Size
pub mod Stats
pub mod Overshoot
pub mod Calls
use Prim.Native.String.{String}
use apache_thrift_benchmarki.Prelude.{
  ℕ, suc, ◌+◌, ◌-◌, ◌*◌, ◌/◌, ◌%◌, ◌^◌, ◌≤◌, ◌<◌, ◌≡◌, refl, Bool, ◌&&◌, List, [], ◌∷◌, ◌++◌,
  Option, none, some, ltb, leb, ◌==◌, if◌then◌else◌, get_elem?, length,
}
use apache_thrift_benchmarki.Prelude.Lists.{set}
use apache_thrift_benchmarki.Format.{Text, codes, to_string}

-- `ThreadManager`: its counts are of type size_t.
pub record ThreadManager (T : Type 0) : Type 0 where
  pub worker_count : T → ℕ
  pub idle_worker_count : T → ℕ
  pub pending_task_count : T → ℕ
  pub add_worker : T → T
  pub remove_worker : T → T

-- What Thrift documents: `addWorker()` starts one worker, `removeWorker()` ends one, and idle workers
-- are workers.
pub record IsThreadManager {T : Type 0} (t_man : ThreadManager T) : Type 0 where
  pub adds : (t : T) → t_man.worker_count (t_man.add_worker t) ≡ t_man.worker_count t + 1
  pub removes :
      (t : T)
      → 0 < t_man.worker_count t
      → t_man.worker_count (t_man.remove_worker t) + 1 ≡ t_man.worker_count t
  pub idle_among : (t : T) → t_man.idle_worker_count t ≤ t_man.worker_count t

-- The handler's surroundings: the thread manager, the cells that `new int(0)` made, by address, and
-- the output. A cell is `none` once it is deleted.
pub record Pool (T : Type 0) : Type 0 where
  pub manager : T
  pub cells : List (Option ℕ)
  pub output : List Text

-- a - b in size_t
abbrev pub sub64 : ℕ → ℕ → ℕ
sub64 a b = (a + 2 ^ 64 - b) % 2 ^ 64

module _ {T : Type 0} (t_man : ThreadManager T) where
  open t_man use {worker_count, idle_worker_count, pending_task_count, add_worker, remove_worker}

  -- The number that `stats` prints first.
  abbrev pub threads_in_use : ℕ → T → ℕ
  threads_in_use reduce_in_use_by t =
      sub64 (sub64 (worker_count t) (idle_worker_count t)) reduce_in_use_by

  unfoldable pub stats : ℕ → T → Text
  stats reduce_in_use_by t =
      codes "(threads in use: "
      ++ (to_string (threads_in_use reduce_in_use_by t)
          ++ (codes "/"
              ++ (to_string (worker_count t)
                  ++ (codes " - connections waiting: "
                      ++ (to_string (pending_task_count t) ++ codes ")")))))

  -- `std::cout << label << stats(…) << std::endl`
  abbrev pub print_stats : String → ℕ → Pool T → Pool T
  print_stats label reduce_in_use_by s = record s {
    output = s.output ++ (codes label ++ stats reduce_in_use_by s.manager) ∷ [];
  }

  unfoldable pub pre_serve : Pool T → Pool T
  pre_serve s = print_stats "  preServe " 0 s

  -- `if (idleWorkerCount() == 0 && workerCount() < t_max) …`
  unfoldable pub grow : ℕ → Pool T → Pool T
  grow t_max s =
      if idle_worker_count s.manager == 0 && ltb (worker_count s.manager) t_max
      then print_stats "    No idle threads, added a new worker thread\n           " 0
          (record s { manager = add_worker s.manager })
      else s

  -- The new context's address, and the pool.
  unfoldable pub create_context : ℕ → Pool T → ℕ × Pool T
  create_context t_max s =
      let s' = grow t_max (print_stats "  create   " 0 s) in
      (length s'.cells, record s' { cells = s'.cells ++ some 0 ∷ [] })

  -- `if (idleWorkerCount() >= workerCount()/2 && workerCount() > t_min) …`
  unfoldable pub shrink : ℕ → Pool T → Pool T
  shrink t_min s =
      if leb (worker_count s.manager / 2) (idle_worker_count s.manager)
        && ltb t_min (worker_count s.manager)
      then print_stats "    Too many idle threads, deleted a worker thread\n           " 1
          (record s { manager = remove_worker s.manager })
      else s

  -- `delete pCallCount`: `none` where the context is not there to delete.
  unfoldable pub free : ℕ → Pool T → Option (Pool T)
  free ctx s = elim (get_elem? s.cells ctx) [
    | some (some _) ↦ some (record s { cells = set s.cells ctx none })
    | _ ↦ none
  ]

  unfoldable pub delete_context : ℕ → ℕ → Pool T → Option (Pool T)
  delete_context t_min ctx s = free ctx (shrink t_min (print_stats "  delete   " 1 s))

  -- `++(*call_count)` and its print. `none` where the context is not there, or at INT_MAX.
  unfoldable pub process_context : ℕ → Pool T → Option (Pool T)
  process_context ctx s = elim (get_elem? s.cells ctx) [
    | some (some count) ↦
        if ltb count (2 ^ 31 - 1)
        then some (record s {
          cells = set s.cells ctx (some (count + 1));
          output = s.output ++ (codes "    Client call #" ++ to_string (count + 1)) ∷ [];
        })
        else none
    | _ ↦ none
  ]
