-- ===== src/UniqueId/Uniqueness/Distinct.antt =====
-- No two clients of one process get the same text.
use mathlib.Core.List.{Mem, Nodup, Nodup-cons, Nodup-nil, mem-cons, not-mem-nil}
use mathlib.Core.Logic.Or
use mathlib.Core.HLevel.{⊥_prop}
use apache_thrift_benchmarki.Prelude.{
  ℕ, ◌^◌, ◌≤◌, ◌<◌, ◌≡◌, refl, List, [], ◌∷◌, map, arith, suc, ap, length,
}
use apache_thrift_benchmarki.Prelude.Int.{ℤ, negsuc}
use apache_thrift_benchmarki.Format.{Text, to_string}
use apache_thrift_benchmarki.Format.RoundTrip.{to_string_injective}
use apache_thrift_benchmarki.UniqueId.Process.{returned, start}
use apache_thrift_benchmarki.UniqueId.Machine.{Host}
use apache_thrift_benchmarki.UniqueId.Handler.{Call}
use apache_thrift_benchmarki.UniqueId.Handler.Layout.{timestamp_of}
use apache_thrift_benchmarki.UniqueId.Uniqueness.{serve, timestamps, AllOn, Regular, ids_of}
use apache_thrift_benchmarki.UniqueId.Uniqueness.Increasing.{
  FollowedBy, Increasing, ids_of-Increasing, serve-ids_of,
}

-- Every number fits the 63 bits of an id.
abbrev Fits : List ℕ → Type 0
Fits [] = Unit {0}
Fits (x ∷ xs) = (x < 2 ^ 63) × Fits xs

ids_of-Fits : (host : Host) (past ts : List ℤ) → Fits (ids_of host past ts)
ids_of-Fits host past [] = tt
ids_of-Fits host past (t ∷ ts) = (omega arith, ids_of-Fits host (t ∷ past) ts)

FollowedBy-mono : (x y : ℕ) (ys : List ℕ) → x ≤ y → FollowedBy y ys → FollowedBy x ys
FollowedBy-mono x y [] h f = tt
FollowedBy-mono x y (z ∷ zs) h f = (omega arith, f.1)

FollowedBy-Increasing : (x : ℕ) (xs : List ℕ) → FollowedBy x xs → Increasing xs
FollowedBy-Increasing x [] f = tt
FollowedBy-Increasing x (y ∷ ys) f = f.1

text-not-mem :
    (x : ℕ) (ys : List ℕ)
    → x < 2 ^ 63
    → Fits ys
    → FollowedBy x ys
    → ¬ Mem (to_string x) (map to_string ys)
text-not-mem x [] small fits f m = not-mem-nil m
text-not-mem x (y ∷ ys) small fits f m =
    Or.elim ⊥_prop (mem-cons.0 m)
      (λ e. absurd (omega (arith, to_string_injective x y (omega arith) (omega arith) e)))
      (λ n. text-not-mem x ys small fits.1 (FollowedBy-mono x y ys (omega arith) f.1) n)

texts-Nodup : (xs : List ℕ) → Fits xs → Increasing xs → Nodup (map to_string xs)
texts-Nodup [] fits inc = Nodup-nil
texts-Nodup (x ∷ xs) fits inc =
    Nodup-cons.1
      (text-not-mem x xs fits.0 fits.1 inc, texts-Nodup xs fits.1 (FollowedBy-Increasing x xs inc))

length-ids_of :
    (host : Host) (past : List ℤ) (calls : List Call)
    → length (map to_string (ids_of host past (timestamps calls))) ≡ length calls
length-ids_of host past [] = refl
length-ids_of host past (call ∷ calls) =
    ap suc (length-ids_of host (timestamp_of call ∷ past) calls)

-- While the clock does not fall, stays within 40 bits of milliseconds of the custom epoch, and no
-- call is preceded by 4096 calls of its own millisecond, every call of a freshly started process
-- that meets one machine is answered with a text, and no two of the texts are equal.
pub serve-Nodup :
    (host : Host) (calls : List Call)
    → AllOn host calls
    → Regular (negsuc 0) [] (timestamps calls)
    → (texts : List Text) × ((serve calls start).0 ≡ returned texts)
      × (length texts ≡ length calls)
      × Nodup texts
serve-Nodup host calls on r = (
  map to_string (ids_of host [] (timestamps calls)),
  serve-ids_of host calls on r,
  length-ids_of host [] calls,
  texts-Nodup (ids_of host [] (timestamps calls)) (ids_of-Fits host [] (timestamps calls))
      (ids_of-Increasing host (negsuc 0) [] (timestamps calls) r),
)
