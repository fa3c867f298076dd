-- ===== src/PoolEvents/Alone.antt =====
-- An event that nothing comes between.
use apache_thrift_benchmarki.Prelude.{
  ℕ, zero, suc, ◌/◌, ◌≡◌, refl, arith, Option, none, some, Option-cases, Bool-cases, inl, inr, true,
  false, ltb, leb, ◌==◌,
}
use apache_thrift_benchmarki.PoolEvents.{
  ThreadManager, Pool, grow, shrink, create_context, free, delete_context,
}
use apache_thrift_benchmarki.PoolEvents.Steps.{
  Phase, create_begin, delete_begin, freeing, finished, delete_after, advance,
}

module _ {T : Type 0} (t_man : ThreadManager T) (t_min t_max : ℕ) where
  open t_man use {worker_count, idle_worker_count}

  -- The handler of an event that nothing comes between, for so many operations.
  unfoldable pub alone : ℕ → Phase → Pool T → Option (Phase × Pool T)
  unfolding advance
  alone zero phase s = some (phase, s)
  alone (suc n) phase s = elim (advance t_man t_min t_max phase s) [
    | none ↦ none
    | some (phase', s') ↦ alone n phase' s'
  ]

  create-alone :
      (s : Pool T) → alone 6 create_begin s ≡ some (finished, (create_context t_man t_max s).1)
  unfolding alone create_context grow
  create-alone s = elim (Bool-cases (idle_worker_count s.manager == 0)) [
    | inl e ↦ elim (Bool-cases (ltb (worker_count s.manager) t_max)) [
      | inl e' ↦ rw (e, alone, grow) (rw e' refl)
      | inr e' ↦ rw (e, alone, grow) (rw e' refl)
    ]
    | inr e ↦ rw (e, alone, grow) refl
  ]

  some_workers : (n : ℕ) → ltb t_min n ≡ true → (n == 0) ≡ false
  some_workers n h = ground arith

  finished-alone : (n : ℕ) (s : Pool T) → alone n finished s ≡ some (finished, s)
  unfolding alone
  finished-alone zero s = refl
  finished-alone (suc n) s = finished-alone n s

  freeing-alone :
      (n ctx : ℕ) (s : Pool T)
      → alone (suc n) (freeing ctx) s ≡ delete_after t_man t_min t_max ctx (free t_man ctx s)
  unfolding alone
  freeing-alone n ctx s = elim (Option-cases (free t_man ctx s)) [
    | inl gone ↦ rw (gone, alone) refl
    | inr (s', e) ↦ rw (e, alone) (finished-alone n s')
  ]

  delete-alone :
      (ctx : ℕ) (s : Pool T)
      → alone 7 (delete_begin ctx) s
        ≡ delete_after t_man t_min t_max ctx (delete_context t_man t_min ctx s)
  unfolding alone delete_context shrink
  delete-alone ctx s =
      elim (Bool-cases (leb (worker_count s.manager / 2) (idle_worker_count s.manager))) [
        | inl e ↦ elim (Bool-cases (ltb t_min (worker_count s.manager))) [
          | inl e' ↦
              rw (e, alone, shrink)
                (rw e' (rw (some_workers (worker_count s.manager) e') (freeing-alone 0 ctx _)))
          | inr e' ↦ rw (e, alone, shrink) (rw e' (freeing-alone 2 ctx _))
        ]
        | inr e ↦ rw (e, alone, shrink) (freeing-alone 3 ctx _)
      ]

  -- An event whose operations nothing comes between does what create_context or delete_context
  -- does, on every path, a context that is not there to delete included.
  pub events_alone :
      (ctx : ℕ) (s : Pool T)
      → (alone 6 create_begin s ≡ some (finished, (create_context t_man t_max s).1))
        × (alone 7 (delete_begin ctx) s
            ≡ delete_after t_man t_min t_max ctx (delete_context t_man t_min ctx s))
  events_alone ctx s = (create-alone s, delete-alone ctx s)
