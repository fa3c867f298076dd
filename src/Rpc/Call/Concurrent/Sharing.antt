-- ===== src/Rpc/Call/Concurrent/Sharing.antt =====
-- How threads share a concurrent client, and what Thrift documents of it.
use apache_thrift_benchmarki.Prelude.{
  ◌≡◌, Bool, true, false, List, [], ◌∷◌, Option, none, some, ◌++◌,
}
use apache_thrift_benchmarki.Prelude.Int.{ℤ, eq_ℤ}
use apache_thrift_benchmarki.Format.{Text, codes}
use apache_thrift_benchmarki.Rpc.Wire.{
  M, returned, thrown, Outcome, application, bad_sequence_id, message_begin, message_end,
  TMessageType, t_reply, Token, token, struct_val, Fields, encode,
}
use apache_thrift_benchmarki.Rpc.Wire.Ends.{Ends}
use apache_thrift_benchmarki.Rpc.Call.Concurrent.{Sync}

-- A reply for another call: who sent it, for which call, and its fields.
pub record Foreign (D : Type 0) : Type 0 where
  pub sender : Text
  pub seqid : ℤ
  pub fields : Fields D

abbrev pub head_of : {D : Type 0} → Foreign D → Text × TMessageType × ℤ
head_of other = (other.sender, t_reply, other.seqid)

abbrev pub after : {D : Type 0} → List (Foreign D) → List (Token D) → List (Token D)
after [] ts = ts
after (other ∷ others) ts =
    token message_begin (other.sender, t_reply, other.seqid)
    ∷ encode (struct_val other.fields) (token message_end tt ∷ after others ts)

abbrev pub NoneOf : {D : Type 0} → ℤ → List (Foreign D) → Type 0
NoneOf seqid [] = Unit {0}
NoneOf seqid (other ∷ others) = (eq_ℤ seqid other.seqid ≡ false) × NoneOf seqid others

-- A thread waits for each of these.
abbrev pub AllAwaited : {D : Type 0} → (ℤ → Bool) → List (Foreign D) → Type 0
AllAwaited awaited [] = Unit {0}
AllAwaited awaited (other ∷ others) = (awaited other.seqid ≡ true) × AllAwaited awaited others

abbrev pub Stash : Type 0
Stash = Option (Text × TMessageType × ℤ)

-- Where a thread is when its wait ends, if others and then its own message were on their way: it is its
-- turn to read, with some of the others still to come, or another thread has put aside its own head.
pub data Turn {W D : Type 0} (H : Stash → Bool → List (Token D) → W → Type 0)
    (others : List (Foreign D)) (own : Text × TMessageType × ℤ) (ts : List (Token D)) (w : W)
    : Type 0 where
  to_read :
      (done later : List (Foreign D))
      → others ≡ done ++ later
      → H none false (after later (token message_begin own ∷ ts)) w
      → Turn H others own ts w
  put_aside : H (some own) false ts w → Turn H others own ts w

-- What Thrift documents of `TConcurrentClientSyncInfo`: in the states `H stash committed ts` the head in
-- stash is put aside for the thread that waits for it, and committed says whether a sentry was
-- committed; `awaited` are the calls that threads wait for. While one thread waits, the others take
-- their turns, reading their own messages and putting heads aside, until the thread is to read or
-- its own head is put aside; the laws are for connections on which no other thread fails.
pub record IsSync {W D : Type 0} (sync : Sync W) (awaited : ℤ → Bool)
    (H : Stash → Bool → List (Token D) → W → Type 0) : Type 0 where
  pub enters :
      (seqid : ℤ) (ts : List (Token D))
      → Ends (H none false ts) (sync.recv_enter seqid) (returned tt) (H none false ts)
  pub leaves :
      (stash : Stash) (c : Bool) (ts : List (Token D))
      → Ends (H stash c ts) sync.recv_leave (returned tt) (H stash c ts)
  pub commits :
      (ts : List (Token D)) → Ends (H none false ts) sync.recv_commit (returned tt) (H none true ts)
  pub takes :
      (stash : Stash) (ts : List (Token D))
      → Ends (H stash false ts) sync.get_pending (returned stash) (H none false ts)
  pub updates :
      (head : Text × TMessageType × ℤ) (ts : List (Token D))
      → awaited head.2 ≡ true
      → Ends (H none false ts) (sync.update_pending head) (returned tt) (H (some head) false ts)
  pub refuses :
      (head : Text × TMessageType × ℤ) (ts : List (Token D))
      → awaited head.2 ≡ false
      → Ends
          (H none false ts)
          (sync.update_pending head)
          (thrown (application bad_sequence_id (codes "server sent a bad seqid")))
          (H (some head) false ts)
  pub waits :
      (seqid : ℤ) (other : Foreign D) (others : List (Foreign D)) (name : Text)
      (mtype : TMessageType) (ts : List (Token D))
      → NoneOf seqid (other ∷ others)
      → AllAwaited awaited (other ∷ others)
      → Ends
          (H (some (head_of other)) false (
            encode (struct_val other.fields) (
              token message_end tt ∷ after others (token message_begin (name, mtype, seqid) ∷ ts))))
          (sync.wait_for_work seqid)
          (returned tt)
          (Turn H others (name, mtype, seqid) ts)

pub NoneOf-later :
    {D : Type 0} (seqid : ℤ) (done later : List (Foreign D))
    → NoneOf seqid (done ++ later)
    → NoneOf seqid later
NoneOf-later seqid [] later h = h
NoneOf-later seqid (other ∷ done) later h = NoneOf-later seqid done later h.1

pub AllAwaited-later :
    {D : Type 0} (awaited : ℤ → Bool) (done later : List (Foreign D))
    → AllAwaited awaited (done ++ later)
    → AllAwaited awaited later
AllAwaited-later awaited [] later h = h
AllAwaited-later awaited (other ∷ done) later h = AllAwaited-later awaited done later h.1

-- The ends of a computation from each of these states.
pub from_Turn :
    {W D A : Type 0} {H : Stash → Bool → List (Token D) → W → Type 0} {others : List (Foreign D)}
    {own : Text × TMessageType × ℤ} {ts : List (Token D)} {m : M W A} {o : Outcome A}
    {Q : W → Type 0}
    → ((done later : List (Foreign D))
        → others ≡ done ++ later
        → Ends (H none false (after later (token message_begin own ∷ ts))) m o Q)
    → Ends (H (some own) false ts) m o Q
    → Ends (Turn H others own ts) m o Q
from_Turn {H = H} {others = others} {own = own} {ts = ts} {m = m} {o = o} {Q = Q} reads takes =
    record { at = at }
  where
    at : (w : _) → Turn H others own ts w → (w' : _) × (m w ≡ (o, w')) × Q w'
    at w (to_read done later e h) = (reads done later e).at w h
    at w (put_aside h) = takes.at w h
