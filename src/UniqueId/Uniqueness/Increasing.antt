-- ===== src/UniqueId/Uniqueness/Increasing.antt =====
-- The numbers grow from call to call.
use apache_thrift_benchmarki.Prelude.{
  ℕ, ◌+◌, ◌*◌, ◌%◌, ◌^◌, ◌≤◌, ◌<◌, ◌≡◌, refl, ap, ◌∙◌, inl, inr, Bool-cases, List, [], ◌∷◌, arith,
  map, ◌==◌, ==_iff,
}
use apache_thrift_benchmarki.Prelude.Int.{ℤ, pos, negsuc, ◌≤ℤ◌, int_max}
use apache_thrift_benchmarki.Format.{Text, to_string}
use apache_thrift_benchmarki.UniqueId.Process.{
  Process, returned, start, return, and_then-returned, ◌>>=◌,
}
use apache_thrift_benchmarki.UniqueId.Counter.Occurrences.{
  occurrences, Tracks, start-Tracks, after_call, get_counter_tracked, after_call-Tracks,
}
use apache_thrift_benchmarki.UniqueId.Machine.{Host}
use apache_thrift_benchmarki.UniqueId.Machine.Answer.{Survey, survey, surveyed}
use apache_thrift_benchmarki.UniqueId.Handler.{Call, thread_pool_compute_unique_id}
use apache_thrift_benchmarki.UniqueId.Handler.Layout.{
  id_number, whole_number, timestamp_of, post_id_lem,
}
use apache_thrift_benchmarki.UniqueId.Uniqueness.{serve, timestamps, AllOn, Regular, ids_of}

surveyed-Tracks :
    (s : Survey) (past : List ℤ) (p : Process) → Tracks past p → Tracks past (surveyed s p)
surveyed-Tracks Survey.no_socket past p v = record { latest = v.latest; counted = v.counted }
surveyed-Tracks Survey.no_interfaces past p v = record { latest = v.latest; counted = v.counted }
surveyed-Tracks (Survey.listed ifrs) past p v = v

-- The process after a call.
abbrev after : Host → List ℤ → ℤ → Process → Process
after host past t p = surveyed (survey host) (after_call past t p)

after-timestamp :
    (s : Survey) (p : Process) → (surveyed s p).current_timestamp ≡ p.current_timestamp
after-timestamp Survey.no_socket p = refl
after-timestamp Survey.no_interfaces p = refl
after-timestamp (Survey.listed ifrs) p = refl

-- One call in a process that tracks its history.
call_tracked :
    (call : Call) (past : List ℤ) (p : Process)
    → Tracks past p
    → p.current_timestamp ≤ℤ timestamp_of call
    → occurrences (timestamp_of call) past < int_max
    → thread_pool_compute_unique_id call p ≡ (
      returned (
          to_string
            (id_number call.host (timestamp_of call) (occurrences (timestamp_of call) past))),
      after call.host past (timestamp_of call) p,
    )
unfolding thread_pool_compute_unique_id
call_tracked call past p v h room =
    rw (post_id_lem call p) (rw (get_counter_tracked (timestamp_of call) past p v h room))

-- Every id is larger than the one before it.
abbrev pub FollowedBy : ℕ → List ℕ → Type 0
FollowedBy x [] = Unit {0}
FollowedBy x (y ∷ ys) = (x < y) × FollowedBy y ys

abbrev pub Increasing : List ℕ → Type 0
Increasing [] = Unit {0}
Increasing (x ∷ xs) = FollowedBy x xs

number_lt :
    (m t c u d : ℕ)
    → t < 2 ^ 40
    → u < 2 ^ 40
    → c < 2 ^ 12
    → d < 2 ^ 12
    → t * 2 ^ 12 + c < u * 2 ^ 12 + d
    → whole_number m t c % 2 ^ 63 < whole_number m u d % 2 ^ 63
number_lt m t c u d ht hu hc hd h = omega arith

-- A later call gets a larger number: in the same millisecond by its count, else by its time.
id_number-lt :
    (host : Host) (t u : ℕ) (past : List ℤ)
    → t ≤ u
    → u < 2 ^ 40
    → occurrences (pos t) past < 2 ^ 12
    → occurrences (pos u) (pos t ∷ past) < 2 ^ 12
    → id_number host (pos t) (occurrences (pos t) past)
      < id_number host (pos u) (occurrences (pos u) (pos t ∷ past))
id_number-lt host t u past h small few few' =
    number_lt _ _ _ _ _ (omega arith) small few few' (elim (Bool-cases (t == u)) [
      | inl same ↦ grind (arith, ap (λ (x : ℕ). occurrences (pos x) past) ((==_iff t u).0 same))
      | inr later ↦ ground arith
    ])

ids_of-FollowedBy :
    (host : Host) (t : ℕ) (past ts : List ℤ)
    → t < 2 ^ 40
    → occurrences (pos t) past < 2 ^ 12
    → Regular (pos t) (pos t ∷ past) ts
    → FollowedBy (id_number host (pos t) (occurrences (pos t) past)) (ids_of host (pos t ∷ past) ts)
ids_of-FollowedBy host t past [] small few r = tt
ids_of-FollowedBy host t past (pos u ∷ ts) small few r = (
  id_number-lt host t u past (omega arith) r.2 few r.3,
  ids_of-FollowedBy host u (pos t ∷ past) ts r.2 r.3 r.4,
)
ids_of-FollowedBy host t past (negsuc u ∷ ts) small few r = absurd (omega arith)

pub ids_of-Increasing :
    (host : Host) (last : ℤ) (past ts : List ℤ)
    → Regular last past ts
    → Increasing (ids_of host past ts)
ids_of-Increasing host last past [] r = tt
ids_of-Increasing host last past (pos t ∷ ts) r = ids_of-FollowedBy host t past ts r.2 r.3 r.4
ids_of-Increasing host last past (negsuc t ∷ ts) r = absurd (omega arith)

serve_cons :
    (call : Call) (calls : List Call) (past : List ℤ) (p : Process) (texts : List Text)
    → Tracks past p
    → p.current_timestamp ≤ℤ timestamp_of call
    → occurrences (timestamp_of call) past < int_max
    → (serve calls (after call.host past (timestamp_of call) p)).0 ≡ returned texts
    → (serve (call ∷ calls) p).0
      ≡ returned (
          to_string (id_number call.host (timestamp_of call) (occurrences (timestamp_of call) past))
          ∷ texts)
unfolding serve
serve_cons call calls past p texts v h room rest =
    rw (call_tracked call past p v h room, ◌>>=◌)
      (ap (λ o. o.0)
        (and_then-returned (serve calls (after call.host past (timestamp_of call) p))
          (λ ids. return (
            to_string
              (id_number call.host (timestamp_of call) (occurrences (timestamp_of call) past))
            ∷ ids))
          rest))

-- The texts that the clients get, by the history of the calls.
serve_tracked :
    (host : Host) (calls : List Call) (past : List ℤ) (p : Process)
    → AllOn host calls
    → Tracks past p
    → Regular p.current_timestamp past (timestamps calls)
    → (serve calls p).0 ≡ returned (map to_string (ids_of host past (timestamps calls)))
unfolding serve
serve_tracked host [] past p on v r = refl
serve_tracked host (call ∷ calls) past p on v r =
    serve_cons call calls past p _ v r.0 (omega arith) (
      serve_tracked host calls (t ∷ past) (after call.host past t p) on.1
        (surveyed-Tracks (survey call.host) (t ∷ past) (after_call past t p)
          (after_call-Tracks t past p v r.0))
        (rw (after-timestamp (survey call.host) (after_call past t p)) r.4))
    ∙ ap
        (λ h. returned (
          to_string (id_number h t (occurrences t past))
          ∷ map to_string (ids_of host (t ∷ past) (timestamps calls))))
        on.0
  where
    t : ℤ
    t = timestamp_of call

pub serve-ids_of :
    (host : Host) (calls : List Call)
    → AllOn host calls
    → Regular (negsuc 0) [] (timestamps calls)
    → (serve calls start).0 ≡ returned (map to_string (ids_of host [] (timestamps calls)))
serve-ids_of host calls on r = serve_tracked host calls [] start on start-Tracks r
