-- ===== src/Rpc/Call/Concurrent/Own.antt =====
-- A concurrent client gets the reply to its own call, also where a reply for another call comes first.
use apache_thrift_benchmarki.Prelude.{
  ℕ, suc, ◌≡◌, refl, ap, ◌∙◌, Bool, true, false, List, [], ◌∷◌, Option, none, some, arith,
}
use apache_thrift_benchmarki.Prelude.Int.{ℤ, eq_ℤ}
use apache_thrift_benchmarki.Format.{Text, codes, same_text}
use apache_thrift_benchmarki.Rpc.Wire.{
  M, ◌>>=◌, return, throw, finally, cleaned, returned, thrown, Exception, application,
  bad_sequence_id, protocol, invalid_data, Protocol, message_begin, message_end, t_reply, Token,
  token, struct_val, Fields, encode,
}
use apache_thrift_benchmarki.Rpc.Wire.Ends.{
  Ends, Carries, chain, >>=-thrown, return_ends, throw_ends,
}
use apache_thrift_benchmarki.Rpc.Call.Messages.{message, drop_message_ends}
use apache_thrift_benchmarki.Rpc.Call.Concurrent.{Sync, take_reply, await_reply, recv_concurrent}
use apache_thrift_benchmarki.Rpc.Call.Concurrent.Sharing.{Foreign, head_of, after, Stash, IsSync}

module _ {W A : Type 0} {P Q R : W → Type 0} {cleanup : M W (Unit {0})} {m : M W A} where
  pub finally-returned :
      {a : A}
      → Ends P m (returned a) Q
      → Ends Q cleanup (returned tt) R
      → Ends P (finally cleanup m) (returned a) R
  unfolding finally ◌>>=◌ return
  finally-returned ends cleans = record {
    at = λ w p.
        let (w', e, q) = ends.at w p in
        let (w'', e', r) = cleans.at w' q in (w'', ap (cleaned cleanup) e ∙ rw e' refl, r);
  }

  pub finally-thrown :
      {x : Exception}
      → Ends P m (thrown x) Q
      → Ends Q cleanup (returned tt) R
      → Ends P (finally cleanup m) (thrown x) R
  unfolding finally ◌>>=◌ throw
  finally-thrown ends cleans = record {
    at = λ w p.
        let (w', e, q) = ends.at w p in
        let (w'', e', r) = cleans.at w' q in (w'', ap (cleaned cleanup) e ∙ rw e' refl, r);
  }

eq_ℤ-self : (n : ℤ) → eq_ℤ n n ≡ true
eq_ℤ-self n = ground arith

module _ {W D : Type 0} {prot : Protocol W D} {sync : Sync W} {awaited : ℤ → Bool}
    {H : Stash → Bool → List (Token D) → W → Type 0}
    (carries : (stash : Stash) (c : Bool) → Carries prot (H stash c))
    (is_sync : IsSync sync awaited H) {R A : Type 0} (name : Text) (read_result : M W R)
    (success : R → Option A) where
  open is_sync use {enters, leaves, commits, takes, updates, refuses, waits}

  -- A reply to this call that has another name throws and is not committed.
  pub recv_concurrent_wrong_name :
      (rounds : ℕ) (seqid : ℤ) (sender : Text) (fs : Fields D)
      → same_text sender name ≡ false
      → Ends
          (H none false (message sender t_reply seqid (encode (struct_val fs))))
          (recv_concurrent prot sync name read_result success (suc rounds) seqid)
          (thrown (protocol invalid_data))
          (H none false [])
  unfolding recv_concurrent await_reply take_reply
  recv_concurrent_wrong_name rounds seqid sender fs differs = chain _ (enters seqid _) (
      finally-thrown
        (chain _ (takes none _) (
          chain _ ((carries none false).reads message_begin (sender, t_reply, seqid) _) (
            rw (eq_ℤ-self seqid) (
              chain _ (return_ends tt) (
                rw differs
                  (chain _ (drop_message_ends (carries none false) fs []) (throw_ends _)))))))
        (leaves none false []))

  -- A reply that no thread waits for ends the call with BAD_SEQUENCE_ID, and is not committed.
  pub recv_concurrent_unawaited :
      (rounds : ℕ) (seqid : ℤ) (other : Foreign D) (ts : List (Token D))
      → eq_ℤ seqid other.seqid ≡ false
      → awaited other.seqid ≡ false
      → Ends
          (H none false (after (other ∷ []) ts))
          (recv_concurrent prot sync name read_result success (suc rounds) seqid)
          (thrown (application bad_sequence_id (codes "server sent a bad seqid")))
          (H
            (some (head_of other))
            false
            (encode (struct_val other.fields) (token message_end tt ∷ ts)))
  unfolding recv_concurrent await_reply
  recv_concurrent_unawaited rounds seqid other ts foreign nobody = chain _ (enters seqid _) (
      finally-thrown
        (chain _ (takes none _) (
          chain _ ((carries none false).reads message_begin (head_of other) _)
            (rw foreign (>>=-thrown _ (refuses (head_of other) _ nobody)))))
        (leaves (some (head_of other)) false _))
