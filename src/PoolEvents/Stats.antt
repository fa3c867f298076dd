-- ===== src/PoolEvents/Stats.antt =====
-- What one event meets, and what `stats` prints.
use apache_thrift_benchmarki.Prelude.{ℕ, ◌+◌, ◌^◌, ◌≤◌, ◌<◌, ◌≡◌, ◌⊎◌, arith, ltb, if◌then◌else◌}
use apache_thrift_benchmarki.PoolEvents.{
  ThreadManager, IsThreadManager, Pool, threads_in_use, grow, create_context,
}
use apache_thrift_benchmarki.PoolEvents.Size.{size}

module _ {T : Type 0} (t_man : ThreadManager T) where
  open t_man use {worker_count, idle_worker_count}

  -- When a connection comes, and nothing comes between its steps, there is an idle worker, or the number of workers grows by one, or it
  -- is at t_max already, over a thread manager that keeps its documented laws.
  pub create_context-serves :
      (laws : IsThreadManager t_man) (t_max : ℕ) (s : Pool T)
      → (0 < idle_worker_count s.manager)
        ⊎ (size t_man (create_context t_man t_max s).1 ≡ size t_man s + 1)
        ⊎ (t_max ≤ size t_man s)
  unfolding create_context grow
  create_context-serves laws t_max s = ground (arith, laws.adds s.manager)

  -- The number of threads in use that stats prints is the number of workers less the idle ones and
  -- the correction; where these are more than the workers it is 2 ^ 64 larger than that difference.
  pub threads_in_use_lem :
      (laws : IsThreadManager t_man) (reduce : ℕ) (t : T)
      → worker_count t < 2 ^ 64
      → reduce < 2 ^ 64
      → threads_in_use t_man reduce t + idle_worker_count t + reduce
        ≡ worker_count t
          + (if ltb (worker_count t) (idle_worker_count t + reduce) then 2 ^ 64 else 0)
  threads_in_use_lem laws reduce t small reduced = ground (arith, laws.idle_among t)
