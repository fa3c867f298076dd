-- ===== src/PoolEvents/Steps.antt =====
-- Events of the thread pool that overlap: `createContext` and `deleteContext` run on the worker threads,
-- without a lock between what they read of the ThreadManager and what they do to it. Each of its
-- operations is one step; a print is one step too, since its reads change nothing. Of the operands of
-- `>=` the left one is read first.
use apache_thrift_benchmarki.Prelude.{
  ℕ, ◌+◌, ◌/◌, ◌<◌, ◌≡◌, List, [], ◌∷◌, ◌++◌, Option, none, some, ltb, leb, ◌==◌, if◌then◌else◌,
  length,
}
use apache_thrift_benchmarki.PoolEvents.{ThreadManager, Pool, print_stats, free, process_context}

-- Where the handler of an event is: before which operation. The handlers of `deleteContext` carry the
-- context, and `check_half` the number of idle workers that was read.
pub data Phase : Type 0 where
  create_begin check_idle check_limit adding added new_int finished : Phase
  delete_begin read_idle check_min removing removed freeing : ℕ → Phase
  check_half : ℕ → ℕ → Phase

module _ {T : Type 0} (t_man : ThreadManager T) (t_min t_max : ℕ) where
  open t_man use {worker_count, idle_worker_count, add_worker, remove_worker}

  abbrev pub delete_after : ℕ → Option (Pool T) → Option (Phase × Pool T)
  delete_after ctx none = none
  delete_after ctx (some s) = some (finished, s)

  -- One operation. `removeWorker()` throws where there is no worker, which ends the event.
  unfoldable pub advance : Phase → Pool T → Option (Phase × Pool T)
  advance create_begin s = some (check_idle, print_stats t_man "  create   " 0 s)
  advance check_idle s = some (if idle_worker_count s.manager == 0 then check_limit else new_int, s)
  advance check_limit s = some (if ltb (worker_count s.manager) t_max then adding else new_int, s)
  advance adding s = some (added, record s { manager = add_worker s.manager })
  advance added s =
      some (
        new_int,
        print_stats t_man "    No idle threads, added a new worker thread\n           " 0 s,
      )
  advance new_int s = some (finished, record s { cells = s.cells ++ some 0 ∷ [] })
  advance finished s = some (finished, s)
  advance (delete_begin ctx) s = some (read_idle ctx, print_stats t_man "  delete   " 1 s)
  advance (read_idle ctx) s = some (check_half ctx (idle_worker_count s.manager), s)
  advance (check_half ctx idle) s =
      some (if leb (worker_count s.manager / 2) idle then check_min ctx else freeing ctx, s)
  advance (check_min ctx) s =
      some (if ltb t_min (worker_count s.manager) then removing ctx else freeing ctx, s)
  advance (removing ctx) s =
      if worker_count s.manager == 0
      then some (finished, s)
      else some (removed ctx, record s { manager = remove_worker s.manager })
  advance (removed ctx) s = some (
    freeing ctx,
    print_stats t_man "    Too many idle threads, deleted a worker thread\n           " 1 s,
  )
  advance (freeing ctx) s = delete_after ctx (free t_man ctx s)

  -- The pool and the events that are being handled.
  pub record Overlap : Type 0 where
    pub phases : List Phase
    pub pool : Pool T

  -- What can happen: an event begins, one of those that began does its next operation, an event is over,
  -- a call is counted, and work comes, begins and ends and leaves the number of workers alone.
  pub data Step (u : Overlap) : Overlap → Type 0 where
    connects : Step u (record u { phases = create_begin ∷ u.phases })
    disconnects : (ctx : ℕ) → Step u (record u { phases = delete_begin ctx ∷ u.phases })
    moves :
        (before later : List Phase) (phase phase' : Phase) {pool' : Pool T}
        → u.phases ≡ before ++ phase ∷ later
        → advance phase u.pool ≡ some (phase', pool')
        → Step u (record { phases = before ++ phase' ∷ later; pool = pool' })
    leaves :
        (before later : List Phase)
        → u.phases ≡ before ++ finished ∷ later
        → Step u (record u { phases = before ++ later })
    calls :
        {pool' : Pool T} (ctx : ℕ)
        → process_context t_man ctx u.pool ≡ some pool'
        → Step u (record u { pool = pool' })
    works :
        (t : T)
        → worker_count t ≡ worker_count u.pool.manager
        → Step u (record u { pool = record u.pool { manager = t } })

  -- No event is handled at once with more than this many others.
  pub data Reach (others : ℕ) (u : Overlap) : Overlap → Type 0 where
    here : Reach others u u
    next :
        {v w : Overlap}
        → Reach others u v
        → Step v w
        → length w.phases < others + 2
        → Reach others u w
