-- ===== src/UniqueId/Race.antt =====
-- `get_counter` in calls that overlap. Each handler locks a mutex that is a local variable of its own
-- call, so no other call ever waits for it and locking is no step here. A read or a write of
-- CURRENT_TIMESTAMP or `counter` is one step, and the steps of two threads come in any order.
use apache_thrift_benchmarki.Prelude.{
  ℕ, ◌+◌, ◌<◌, ◌≡◌, refl, true, false, inl, inr, Bool-cases, arith, ltb, ltb→lt,
}
use apache_thrift_benchmarki.Prelude.Int.{ℤ, ltb_ℤ, eq_ℤ, int_max}
use apache_thrift_benchmarki.UniqueId.Process.{Process, Outcome, returned, exit_failure}
use apache_thrift_benchmarki.UniqueId.Counter.{post_increment, get_counter}

-- The two static variables.
pub record Shared : Type 0 where
  pub current_timestamp : ℤ
  pub counter : ℕ

-- Where a call of `get_counter(t)` stands.
pub data Pc : Type 0 where
  entered : ℤ → Pc  -- before `CURRENT_TIMESTAMP > timestamp`
  passed : ℤ → Pc  -- before `CURRENT_TIMESTAMP == timestamp`
  setting : ℤ → Pc  -- before `CURRENT_TIMESTAMP = timestamp`
  resetting : ℤ → Pc  -- before `counter = 0`
  reading : ℤ → Pc  -- before the read of `counter++`
  writing : ℤ → ℕ → Pc  -- before its write, with the value read
  answered : ℤ → ℕ → Pc
  exiting : Pc

-- One step of one thread.
pub data Move (m : Shared) : Pc → Shared → Pc → Type 0 where
  fall : {t : ℤ} → ltb_ℤ t m.current_timestamp ≡ true → Move m (entered t) m exiting
  pass : {t : ℤ} → ltb_ℤ t m.current_timestamp ≡ false → Move m (entered t) m (passed t)
  equal : {t : ℤ} → eq_ℤ m.current_timestamp t ≡ true → Move m (passed t) m (reading t)
  differ : {t : ℤ} → eq_ℤ m.current_timestamp t ≡ false → Move m (passed t) m (setting t)
  set : {t : ℤ} → Move m (setting t) (record m { current_timestamp = t }) (resetting t)
  reset : {t : ℤ} → Move m (resetting t) (record m { counter = 0 }) (reading t)
  read : {t : ℤ} → Move m (reading t) m (writing t m.counter)
  write :
      {t : ℤ} {c : ℕ}
      → c < int_max
      → Move m (writing t c) (record m { counter = c + 1 }) (answered t c)

-- Two calls over the shared variables.
pub record System : Type 0 where
  pub mem : Shared
  pub first : Pc
  pub second : Pc

pub data Step (s : System) : System → Type 0 where
  step_first :
      {m : Shared} {p : Pc}
      → Move s.mem s.first m p
      → Step s (record { mem = m; first = p; second = s.second })
  step_second :
      {m : Shared} {p : Pc}
      → Move s.mem s.second m p
      → Step s (record { mem = m; first = s.first; second = p })

pub data Reach : System → System → Type 0 where
  here : {s : System} → Reach s s
  next : {s t u : System} → Step s t → Reach t u → Reach s u

-- Both calls have the same timestamp and are about to start.
abbrev pub both_enter : Shared → ℤ → System
both_enter m t = record { mem = m; first = entered t; second = entered t }

abbrev pub both_answer : ℤ → ℕ → System
both_answer t c = record {
  mem = record { current_timestamp = t; counter = c + 1 };
  first = answered t c;
  second = answered t c;
}

module _ (m : Shared) (t : ℤ) (ready : ltb_ℤ t m.current_timestamp ≡ false) where
  -- The clock has moved on: both set it and reset the counter before either reads.
  race_new : eq_ℤ m.current_timestamp t ≡ false → Reach (both_enter m t) (both_answer t 0)
  race_new moved = next (step_first (Move.pass ready)) (
      next (step_second (Move.pass ready)) (
        next (step_first (Move.differ moved)) (
          next (step_second (Move.differ moved)) (
            next (step_first Move.set) (
              next (step_second Move.set) (
                next (step_first Move.reset) (
                  next (step_second Move.reset) (
                    next (step_first Move.read) (
                      next (step_second Move.read) (
                        next (step_first (Move.write (omega arith)))
                          (next (step_second (Move.write (omega arith))) here)))))))))))

  -- The clock stands: both read the counter before either writes it.
  race_same :
      eq_ℤ m.current_timestamp t ≡ true
      → m.counter < int_max
      → Reach (both_enter m t) (record {
        mem = record m { counter = m.counter + 1 };
        first = answered t m.counter;
        second = answered t m.counter;
      })
  race_same stands room = next (step_first (Move.pass ready)) (
      next (step_second (Move.pass ready)) (
        next (step_first (Move.equal stands)) (
          next (step_second (Move.equal stands)) (
            next (step_first Move.read) (
              next (step_second Move.read) (
                next (step_first (Move.write room))
                  (next (step_second (Move.write room)) here)))))))

  -- Whatever the static variables hold, if there is room in the counter, two calls of get_counter
  -- with one timestamp that does not lie before the last one can overlap so that both return the
  -- same counter: the mutex that each call locks is its own.
  pub same_answer :
      m.counter < int_max
      → (c : ℕ) × (s : System) × Reach (both_enter m t) s
        × (s.first ≡ answered t c)
        × (s.second ≡ answered t c)
  same_answer room = elim (Bool-cases (eq_ℤ m.current_timestamp t)) [
    | inl stands ↦ (m.counter, _, race_same stands room, refl, refl)
    | inr moved ↦ (0, _, race_new moved, refl, refl)
  ]

-- The static variables of a process.
abbrev pub shared : Process → Shared
shared p = record { current_timestamp = p.current_timestamp; counter = p.counter }

-- Steps of one thread while the others stand still.
pub data Run : Shared → Pc → Shared → Pc → Type 0 where
  done : {m : Shared} {p : Pc} → Run m p m p
  more : {m m' m'' : Shared} {p q r : Pc} → Move m p m' q → Run m' q m'' r → Run m p m'' r

-- Where a call stands after it ended so; a call that overflows `counter` stays before the write.
abbrev pub ended : ℤ → Process → Outcome ℕ → Pc
ended t p (returned c) = answered t c
ended t p exit_failure = exiting
ended t p _ = writing t p.counter

post_increment-Run :
    (t : ℤ) (p : Process)
    → eq_ℤ p.current_timestamp t ≡ true
    → Run (shared p) (passed t) (shared (post_increment p).1) (ended t p (post_increment p).0)
unfolding post_increment
post_increment-Run t p stands = elim (Bool-cases (ltb p.counter int_max)) [
  | inl room ↦
      rw room (more (Move.equal stands) (more Move.read (more (Move.write (ltb→lt _ _ room)) done)))
  | inr full ↦ rw full (more (Move.equal stands) (more Move.read done))
]

-- A call of get_counter that no other call interrupts takes single reads and writes of the static
-- variables that end where get_counter ends, with the static variables that it leaves, whether it
-- returns, ends the process or overflows.
pub get_counter-Run :
    (t : ℤ) (p : Process)
    → Run (shared p) (entered t) (shared (get_counter t p).1) (ended t p (get_counter t p).0)
unfolding get_counter
get_counter-Run t p = elim (Bool-cases (ltb_ℤ t p.current_timestamp)) [
  | inl falls ↦ rw falls (more (Move.fall falls) done)
  | inr ready ↦ elim (Bool-cases (eq_ℤ p.current_timestamp t)) [
    | inl stands ↦ rw (ready, stands) (more (Move.pass ready) (post_increment-Run t p stands))
    | inr moved ↦
        rw (ready, moved)
          (more (Move.pass ready) (
            more (Move.differ moved) (
              more Move.set
                (more Move.reset (more Move.read (more (Move.write (omega arith)) done))))))
  ]
]
