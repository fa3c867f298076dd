-- ===== src/UniqueId/Uniqueness.antt =====
-- The identifiers that one server process hands out to calls one after the other.
pub mod Increasing
pub mod Distinct
pub mod Collision
use apache_thrift_benchmarki.Prelude.{ℕ, ◌+◌, ◌*◌, ◌^◌, ◌≤◌, ◌<◌, ◌≡◌, refl, List, [], ◌∷◌}
use apache_thrift_benchmarki.Prelude.Int.{ℤ, pos, negsuc, pos_part, neg_part, ◌≤ℤ◌}
use apache_thrift_benchmarki.Format.{Text}
use apache_thrift_benchmarki.UniqueId.Process.{Process, Outcome, M, returned, return, ◌>>=◌}
use apache_thrift_benchmarki.UniqueId.Counter.Occurrences.{occurrences}
use apache_thrift_benchmarki.UniqueId.Machine.{Host}
use apache_thrift_benchmarki.UniqueId.Handler.{Call, thread_pool_compute_unique_id}
use apache_thrift_benchmarki.UniqueId.Handler.Layout.{id_number, timestamp_of}

-- The calls of one process in turn, and the texts that their clients get.
unfoldable pub serve : List Call → M (List Text)
serve [] = return []
serve (call ∷ calls) = do
  id ← thread_pool_compute_unique_id call
  ids ← serve calls
  return (id ∷ ids)

abbrev pub timestamps : List Call → List ℤ
timestamps [] = []
timestamps (call ∷ calls) = timestamp_of call ∷ timestamps calls

-- All the calls meet one machine.
abbrev pub AllOn : Host → List Call → Type 0
AllOn host [] = Unit {0}
AllOn host (call ∷ calls) = (call.host ≡ host) × AllOn host calls

-- From `last` on the clock does not fall, stays within 40 bits of milliseconds of the custom epoch,
-- and no call is preceded by 4096 calls of its own millisecond. `past` holds the earlier timestamps.
abbrev pub Regular : ℤ → List ℤ → List ℤ → Type 0
Regular last past [] = Unit {0}
Regular last past (t ∷ ts) =
    (last ≤ℤ t)
    × (pos 0 ≤ℤ t)
    × (pos_part t < 2 ^ 40)
    × (occurrences t past < 2 ^ 12)
    × Regular t (t ∷ past) ts

-- The ids by the history of the calls.
abbrev pub ids_of : Host → List ℤ → List ℤ → List ℕ
ids_of host past [] = []
ids_of host past (t ∷ ts) = id_number host t (occurrences t past) ∷ ids_of host (t ∷ past) ts
