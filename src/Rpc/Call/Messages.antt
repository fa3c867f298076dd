-- ===== src/Rpc/Call/Messages.antt =====
-- How messages are written and read.
use apache_thrift_benchmarki.Prelude.{
  ℕ, ◌≡◌, refl, arith, true, false, List, [], ◌∷◌, ◌++◌, Option, none, some, ◌==◌,
}
use apache_thrift_benchmarki.Prelude.Int.{ℤ}
use apache_thrift_benchmarki.Format.{Text, codes, same_text}
use apache_thrift_benchmarki.Rpc.Wire.{
  M, ◌>>=◌, ◌>>◌, return, throw, Outcome, returned, thrown, application, missing_result, Protocol,
  message_begin, message_end, exception, TMessageType, t_reply, t_exception, Token, token,
  struct_val, Fields, encode,
}
use apache_thrift_benchmarki.Rpc.Wire.Ends.{
  Ends, Carries, Lacks, Lacks-all, Lacks-none, chain, return_ends, throw_ends, write-Lacks,
  write_end-Lacks, flush-Lacks,
}
use apache_thrift_benchmarki.Rpc.Call.{end_message, drop_message, send, recv}

pub same_text_self : (s : Text) → same_text s s ≡ true
unfolding same_text
same_text_self [] = refl
same_text_self (c ∷ s) = rw (same_number c) (same_text_self s)
  where
    same_number : (n : ℕ) → (n == n) ≡ true
    same_number n = ground arith

-- The tokens of something, before what follows them.
abbrev pub Tokens : Type 0 → Type 0
Tokens D = List (Token D) → List (Token D)

abbrev pub message : {D : Type 0} → Text → TMessageType → ℤ → Tokens D → List (Token D)
message name mtype seqid body =
    token message_begin (name, mtype, seqid) ∷ body (token message_end tt ∷ [])

abbrev pub failure : {D : Type 0} → ℕ → Text → Tokens D
failure kind text ts = token exception (kind, text) ∷ ts

abbrev pub Reading :
    {W D A : Type 0} → (List (Token D) → W → Type 0) → Tokens D → M W A → A → Type 0
Reading {D = D} H body m a = (ts : List (Token D)) → Ends (H (body ts)) m (returned a) (H ts)

abbrev pub Writing :
    {W D : Type 0} → (List (Token D) → W → Type 0) → Tokens D → M W (Unit {0}) → Type 0
Writing {D = D} H body m =
    (all ts : List (Token D)) → Ends (Lacks H all (body ts)) m (returned tt) (Lacks H all ts)

-- How a call ends whose result holds this.
abbrev pub reply_outcome : {A : Type 0} → Text → Option A → Outcome A
reply_outcome name (some a) = returned a
reply_outcome name none =
    thrown (application missing_result (name ++ codes " failed: unknown result"))

module _ {W D : Type 0} {H : List (Token D) → W → Type 0} {m : M W (Unit {0})} where
  written :
      {all : List (Token D)}
      → Ends (Lacks H all all) m (returned tt) (Lacks H all [])
      → Ends (H []) m (returned tt) (H all)
  written {all} ends = record {
    at = λ w h. let (w', e, l) = ends.at w (Lacks-all [] all h) in (w', e, Lacks-none l);
  }

  pub writing_ends :
      (tokens : Tokens D) → Writing H tokens m → Ends (H []) m (returned tt) (H (tokens []))
  writing_ends tokens writing = written (writing (tokens []) [])

module _ {W D : Type 0} {prot : Protocol W D} {H : List (Token D) → W → Type 0}
    (carries : Carries prot H) where
  open carries use {reads, skips, read_ends}

  pub end_message_ends :
      (ts : List (Token D))
      → Ends (H (token message_end tt ∷ ts)) (end_message prot) (returned tt) (H ts)
  unfolding end_message
  end_message_ends ts = chain _ (reads message_end tt ts) (read_ends ts)

  pub drop_message_ends :
      (fs : Fields D) (ts : List (Token D))
      → Ends
          (H (encode (struct_val fs) (token message_end tt ∷ ts)))
          (drop_message prot)
          (returned tt)
          (H ts)
  unfolding drop_message
  drop_message_ends fs ts = chain _ (skips (struct_val fs) _) (end_message_ends ts)

  pub failure-Writing :
      (kind : ℕ) (text : Text)
      → Writing H (failure kind text) (prot.write exception [] (kind, text))
  failure-Writing kind text all ts = write-Lacks carries exception [] (kind, text) ts

  send-Lacks :
      {body : M W (Unit {0})} (name : Text) (mtype : TMessageType) (seqid : ℤ) (tokens : Tokens D)
      → Writing H tokens body
      → (all : List (Token D))
      → Ends
          (Lacks H all (message name mtype seqid tokens))
          (send prot name mtype seqid body)
          (returned tt)
          (Lacks H all [])
  unfolding send
  send-Lacks name mtype seqid tokens writing all =
      chain _ (write-Lacks carries message_begin [] (name, mtype, seqid) _) (
        chain _ (writing all _) (
          chain _ (write-Lacks carries message_end [] tt [])
            (chain _ (write_end-Lacks carries []) (flush-Lacks carries []))))

  pub send_ends :
      {body : M W (Unit {0})} (name : Text) (mtype : TMessageType) (seqid : ℤ) (tokens : Tokens D)
      → Writing H tokens body
      → Ends
          (H [])
          (send prot name mtype seqid body)
          (returned tt)
          (H (message name mtype seqid tokens))
  send_ends name mtype seqid tokens writing =
      written (send-Lacks name mtype seqid tokens writing (message name mtype seqid tokens))

  module _ {R A : Type 0} (name : Text) (read_result : M W R) (success : R → Option A) where
    pub recv_exception :
        (sender : Text) (seqid : ℤ) (kind : ℕ) (text : Text)
        → Ends
            (H (message sender t_exception seqid (failure kind text)))
            (recv prot name read_result success)
            (thrown (application kind text))
            (H [])
    unfolding recv
    recv_exception sender seqid kind text =
        chain _ (reads message_begin (sender, t_exception, seqid) _) (
          chain _ (reads exception (kind, text) _)
            (chain _ (end_message_ends []) (throw_ends (application kind text))))

    module _ {result : R} (seqid : ℤ) (tokens : Tokens D)
        (reading : Reading H tokens read_result result) where
      finish :
          Ends
            (H (tokens (token message_end tt ∷ [])))
            (do
              r ← read_result
              end_message prot
              elim (success r) [
                | some a ↦ return a
                | none ↦
                    throw (application missing_result (name ++ codes " failed: unknown result"))
              ])
            (reply_outcome name (success result))
            (H [])
      finish = chain _ (reading _) (chain _ (end_message_ends []) (last (success result)))
        where
          last :
              (o : Option A)
              → Ends
                  (H [])
                  (elim o [
                    | some a ↦ return a
                    | none ↦
                        throw (application missing_result (name ++ codes " failed: unknown result"))
                  ])
                  (reply_outcome name o)
                  (H [])
          last (some a) = return_ends a
          last none = throw_ends _

      pub recv_reply :
          Ends
            (H (message name t_reply seqid tokens))
            (recv prot name read_result success)
            (reply_outcome name (success result))
            (H [])
      unfolding recv
      recv_reply =
          chain _ (reads message_begin (name, t_reply, seqid) _)
            (chain _ (return_ends tt) (rw (same_text_self name) (chain _ (return_ends tt) finish)))

      -- After a reply of another name the result is read from what follows it.
      pub recv_wrong_name :
          (sender : Text) (fs : Fields D)
          → same_text sender name ≡ false
          → Ends
              (H (
                token message_begin (sender, t_reply, seqid)
                ∷ encode
                    (struct_val fs)
                    (token message_end tt ∷ tokens (token message_end tt ∷ []))))
              (recv prot name read_result success)
              (reply_outcome name (success result))
              (H [])
      unfolding recv
      recv_wrong_name sender fs differs =
          chain _ (reads message_begin (sender, t_reply, seqid) _)
            (chain _ (return_ends tt) (rw differs (chain _ (drop_message_ends fs _) finish)))

module _ {W D : Type 0} {prot : Protocol W D} {H : List (Token D) → W → Type 0}
    (carries : Carries prot H) {R A : Type 0} (name : Text) (read_result : M W R)
    (success : R → Option A) {result : R} (tokens : Tokens D)
    (reading : Reading H tokens read_result result) where
  -- What a client makes of what comes back: a reply gives the result, or a MISSING_RESULT exception
  -- if it has none; an exception is thrown on with its type and text; and after a reply that names
  -- another method, which is dropped, the client reads the result straight from what follows,
  -- without the head of a message.
  pub recv_lem :
      (seqid : ℤ) (sender : Text) (kind : ℕ) (why : Text) (fs : Fields D)
      → same_text sender name ≡ false
      → Ends
          (H (message name t_reply seqid tokens))
          (recv prot name read_result success)
          (reply_outcome name (success result))
          (H [])
        × Ends
            (H (message sender t_exception seqid (failure kind why)))
            (recv prot name read_result success)
            (thrown (application kind why))
            (H [])
        × Ends
            (H (
              token message_begin (sender, t_reply, seqid)
              ∷ encode (struct_val fs) (token message_end tt ∷ tokens (token message_end tt ∷ []))))
            (recv prot name read_result success)
            (reply_outcome name (success result))
            (H [])
  recv_lem seqid sender kind why fs differs = (
    recv_reply carries name read_result success seqid tokens reading,
    recv_exception carries name read_result success sender seqid kind why,
    recv_wrong_name carries name read_result success seqid tokens reading sender fs differs,
  )
