-- ===== src/PoolEvents/Overshoot.antt =====
-- Two connections that come at once can get a worker each where there is room for one.
use apache_thrift_benchmarki.Prelude.{ℕ, ◌+◌, ◌≡◌, refl, arith, true, [], ◌∷◌, ltb}
use apache_thrift_benchmarki.PoolEvents.{ThreadManager, IsThreadManager, Pool, print_stats}
use apache_thrift_benchmarki.PoolEvents.Steps.{
  create_begin, check_idle, check_limit, adding, added, advance, Overlap, connects, moves, Reach,
  here, next,
}

module _ {T : Type 0} (t_man : ThreadManager T) (t_min t_max : ℕ) where
  open t_man use {worker_count, idle_worker_count, add_worker}

  abbrev pub printed : Pool T → Pool T
  printed s = print_stats t_man "  create   " 0 (print_stats t_man "  create   " 0 s)

  below : (n : ℕ) → n + 1 ≡ t_max → ltb n t_max ≡ true
  below n room = ground arith

  -- Both handlers have read the counts before either adds a worker.
  abbrev pub overshot : Pool T → Overlap t_man t_min t_max
  overshot s = record {
    phases = added ∷ added ∷ [];
    pool = record (printed s) { manager = add_worker (add_worker s.manager) };
  }

  pub overshot-Reach :
      (s : Pool T)
      → idle_worker_count s.manager ≡ 0
      → worker_count s.manager + 1 ≡ t_max
      → Reach t_man t_min t_max 1 (record { phases = []; pool = s }) (overshot s)
  unfolding advance
  overshot-Reach s none_idle room =
      next
        (next
          (next
            (next
              (next
                (next
                  (next
                    (next (next (next here connects (omega arith)) connects (omega arith))
                      (moves [] (create_begin ∷ []) create_begin check_idle refl refl)
                      (omega arith))
                    (moves (check_idle ∷ []) [] create_begin check_idle refl refl) (omega arith))
                  (moves [] (check_idle ∷ []) check_idle check_limit {pool' = printed s} refl
                    (rw none_idle refl))
                  (omega arith))
                (moves (check_limit ∷ []) [] check_idle check_limit {pool' = printed s} refl
                  (rw none_idle refl))
                (omega arith))
              (moves [] (check_limit ∷ []) check_limit adding {pool' = printed s} refl
                (rw (below (worker_count s.manager) room) refl))
              (omega arith))
            (moves (adding ∷ []) [] check_limit adding {pool' = printed s} refl
              (rw (below (worker_count s.manager) room) refl))
            (omega arith))
          (moves [] (adding ∷ []) adding added refl refl) (omega arith))
        (moves (added ∷ []) [] adding added refl refl) (omega arith)

  -- From a pool with one worker fewer than t_max, none of them idle, two overlapping events come to one
  -- worker more than t_max.
  pub passes_limit :
      IsThreadManager t_man
      → (s : Pool T) → idle_worker_count s.manager ≡ 0
      → worker_count s.manager + 1 ≡ t_max
      → (w : Overlap t_man t_min t_max) × Reach t_man t_min t_max 1
          (record { phases = []; pool = s })
          w
        × (worker_count w.pool.manager ≡ t_max + 1)
  passes_limit laws s none_idle room = (
    overshot s,
    overshot-Reach s none_idle room,
    omega (arith, laws.adds s.manager, laws.adds (add_worker s.manager), room),
  )
