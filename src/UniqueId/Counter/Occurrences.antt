-- ===== src/UniqueId/Counter/Occurrences.antt =====
-- What `get_counter` answers, against the history of the calls.
use apache_thrift_benchmarki.Prelude.{
  ℕ, ◌+◌, ◌≤◌, ◌<◌, ◌≡◌, refl, sym, ap, ◌∙◌, true, false, arith, if◌then◌else◌, inl, inr,
  Bool-cases, List, [], ◌∷◌, length, ◌↔◌,
}
use apache_thrift_benchmarki.Prelude.Int.{ℤ, negsuc, ltb_ℤ, ◌≤ℤ◌, eq_of_parts, eq_ℤ, int_max}
use apache_thrift_benchmarki.UniqueId.Process.{
  Process, returned, exit_failure, start, return, and_then-returned, ◌>>=◌,
}
use apache_thrift_benchmarki.UniqueId.Counter.{get_counter, counters}

abbrev pub occurrences : ℤ → List ℤ → ℕ
occurrences t [] = 0
occurrences t (x ∷ past) = (if eq_ℤ x t then 1 else 0) + occurrences t past

-- Every time in the history is at or before `t`.
abbrev pub AtMost : ℤ → List ℤ → Type 0
AtMost t [] = Unit {0}
AtMost t (x ∷ past) = (x ≤ℤ t) × AtMost t past

-- From `c` on the timestamps never fall.
abbrev pub NotFalling : ℤ → List ℤ → Type 0
NotFalling c [] = Unit {0}
NotFalling c (t ∷ ts) = (c ≤ℤ t) × NotFalling t ts

AtMost-mono : (c t : ℤ) (past : List ℤ) → c ≤ℤ t → AtMost c past → AtMost t past
AtMost-mono c t [] h a = tt
AtMost-mono c t (x ∷ past) h a = (omega arith, AtMost-mono c t past h a.1)

occurrences_later :
    (c t : ℤ) (past : List ℤ) → ltb_ℤ c t ≡ true → AtMost c past → occurrences t past ≡ 0
occurrences_later c t [] h a = refl
occurrences_later c t (x ∷ past) h a = ground (arith, occurrences_later c t past h a.1)

occurrences-le-length : (t : ℤ) (past : List ℤ) → occurrences t past ≤ length past
occurrences-le-length t [] = omega arith
occurrences-le-length t (x ∷ past) = ground (arith, occurrences-le-length t past)

-- The static variables agree with the history of the calls, the latest call first.
pub record Tracks (past : List ℤ) (p : Process) : Type 0 where
  pub latest : AtMost p.current_timestamp past
  pub counted : p.counter ≡ occurrences p.current_timestamp past

pub start-Tracks : Tracks [] start
start-Tracks = record { latest = tt; counted = refl }

-- The state after a call at time `t`.
abbrev pub after_call : List ℤ → ℤ → Process → Process
after_call past t p = record p { current_timestamp = t; counter = occurrences t past + 1 }

pub eq_ℤ-eq : (a b : ℤ) → eq_ℤ a b ≡ true → a ≡ b
eq_ℤ-eq a b h = ground (arith, eq_of_parts a b)

lt_ℤ : (a b : ℤ) → a ≤ℤ b → eq_ℤ a b ≡ false → ltb_ℤ a b ≡ true
lt_ℤ a b h e = ground arith

pub get_counter_same :
    (t : ℤ) (n : ℕ) (p : Process)
    → p.current_timestamp ≡ t
    → p.counter ≡ n
    → n < int_max
    → get_counter t p ≡ (returned n, record p { current_timestamp = t; counter = n + 1 })
unfolding get_counter
get_counter_same t n p e counted room = ground arith

get_counter_later :
    (t : ℤ) (p : Process)
    → ltb_ℤ p.current_timestamp t ≡ true
    → get_counter t p ≡ (returned 0, record p { current_timestamp = t; counter = 0 + 1 })
unfolding get_counter
get_counter_later t p h = ground arith

pub get_counter_tracked :
    (t : ℤ) (past : List ℤ) (p : Process)
    → Tracks past p
    → p.current_timestamp ≤ℤ t
    → occurrences t past < int_max
    → get_counter t p ≡ (returned (occurrences t past), after_call past t p)
get_counter_tracked t past p v h room = elim (Bool-cases (eq_ℤ p.current_timestamp t)) [
  | inl same ↦
      let now : p.current_timestamp ≡ t = eq_ℤ-eq p.current_timestamp t same in
      get_counter_same t (occurrences t past) p now (v.counted ∙ ap (λ c. occurrences c past) now)
        room
  | inr later ↦
      let new : occurrences t past ≡ 0 =
        occurrences_later p.current_timestamp t past (lt_ℤ _ t h later) v.latest in
      get_counter_later t p (lt_ℤ _ t h later)
      ∙ ap (λ n. (returned n, record p { current_timestamp = t; counter = n + 1 })) (sym new)
]

pub after_call-Tracks :
    (t : ℤ) (past : List ℤ) (p : Process)
    → Tracks past p
    → p.current_timestamp ≤ℤ t
    → Tracks (t ∷ past) (after_call past t p)
after_call-Tracks t past p v h = record {
  latest = (omega arith, AtMost-mono _ t past h v.latest);
  counted = ground arith;
}

-- The answer that the history of the calls gives each timestamp.
abbrev pub expected : List ℤ → List ℤ → List ℕ
expected past [] = []
expected past (t ∷ ts) = occurrences t past ∷ expected (t ∷ past) ts

counters_tracked :
    (past ts : List ℤ) (p : Process)
    → Tracks past p
    → NotFalling p.current_timestamp ts
    → length past + length ts ≤ int_max
    → (counters ts p).0 ≡ returned (expected past ts)
unfolding counters
counters_tracked past [] p v h room = refl
counters_tracked past (t ∷ ts) p v h room =
    rw (get_counter_tracked t past p v h.0 (omega (arith, occurrences-le-length t past)), ◌>>=◌)
      (ap (λ r. r.0)
        (and_then-returned (counters ts (after_call past t p))
          (λ cs. return (occurrences t past ∷ cs))
          (counters_tracked (t ∷ past) ts (after_call past t p) (after_call-Tracks t past p v h.0)
            h.1 (omega arith))))

-- While the timestamps do not fall, from -1 ms of the custom epoch on, and there are no more than
-- INT_MAX calls, every get_counter call of a process, one after the other, returns the number of
-- earlier calls with its timestamp.
pub counters-expected :
    (ts : List ℤ)
    → NotFalling (negsuc 0) ts
    → length ts ≤ int_max
    → (counters ts start).0 ≡ returned (expected [] ts)
counters-expected ts h room = counters_tracked [] ts start start-Tracks h (omega arith)

-- A call of get_counter ends the process exactly when its timestamp lies before the last one.
pub get_counter_exits :
    (t : ℤ) (p : Process)
    → ((get_counter t p).0 ≡ exit_failure) ↔ (ltb_ℤ t p.current_timestamp ≡ true)
unfolding get_counter
get_counter_exits t p = (λ h. ground arith, λ h. ground arith)
