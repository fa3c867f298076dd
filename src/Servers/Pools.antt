-- ===== src/Servers/Pools.antt =====
-- The pools of the thread pool servers over the life of the server.
use apache_thrift_benchmarki.Prelude.{ℕ, ◌+◌, ◌≤◌, ◌≡◌, arith, []}
use apache_thrift_benchmarki.PoolEvents.{ThreadManager, IsThreadManager, Pool}
use apache_thrift_benchmarki.PoolEvents.Size.{Reach-Within}
use apache_thrift_benchmarki.PoolEvents.Steps.{Overlap, Reach}
use apache_thrift_benchmarki.Servers.{
  Threads, one_per_connection, nonblocking, pooled, id_thread_pool_server, async_thread_pool_server,
  compute_thread_pool_server, echo_thread_pool_server,
}

module _ {T : Type 0} (t_man : ThreadManager T) (others : ℕ) where
  -- Where no event is handled at once with more than this many others, every pool that the server comes
  -- to, from a manager of its workers, has between t_min and t_max of them, give or take as many.
  abbrev pub KeepsSize : Threads → Type 0
  KeepsSize one_per_connection = Unit {0}
  KeepsSize (nonblocking workers io_threads) = Unit {0}
  KeepsSize (pooled workers pending_task_count_max t_min t_max) =
      (s : Pool T) (w : Overlap t_man t_min t_max)
      → t_man.worker_count s.manager ≡ workers
      → Reach t_man t_min t_max others (record { phases = []; pool = s }) w
      → (t_min ≤ t_man.worker_count w.pool.manager + others)
        × (t_man.worker_count w.pool.manager ≤ t_max + others)

  keeps_size :
      (laws : IsThreadManager t_man) (workers pending t_min t_max : ℕ)
      → t_min ≤ workers
      → workers ≤ t_max
      → KeepsSize (pooled workers pending t_min t_max)
  keeps_size laws workers pending t_min t_max h h' s w e r =
      Reach-Within t_man laws t_min t_max others s (omega (arith, e, h)) (omega (arith, e, h')) r

  -- The pools of the four thread pool servers, as their main functions set them up.
  pub pools_keep_size :
      (laws : IsThreadManager t_man)
      → KeepsSize id_thread_pool_server.threads
        × KeepsSize async_thread_pool_server.threads
        × KeepsSize compute_thread_pool_server.threads
        × KeepsSize echo_thread_pool_server.threads
  pools_keep_size laws = (
    keeps_size laws 1 8 1 8 (omega arith) (omega arith),
    keeps_size laws 1 8 1 8 (omega arith) (omega arith),
    keeps_size laws 1 4 1 4 (omega arith) (omega arith),
    keeps_size laws 2 1 2 4 (omega arith) (omega arith),
  )
