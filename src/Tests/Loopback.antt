-- ===== src/Tests/Loopback.antt =====
-- A connection as two queues of tokens: a protocol and a synchronisation with which the documented
-- behaviour of Thrift holds.
use apache_thrift_benchmarki.Prelude.{
  ℕ, zero, suc, ◌≡◌, refl, ◌∙◌, Bool, true, false, if◌then◌else◌, List, [], ◌∷◌, ◌++◌, Option, none,
  some,
}
use apache_thrift_benchmarki.Prelude.Int.{ℤ, pos, eq_ℤ}
use apache_thrift_benchmarki.Format.{Text, codes}
use apache_thrift_benchmarki.Rpc.Wire.{
  Outcome, returned, thrown, Exception, application, bad_sequence_id, protocol, transport, other,
  Protocol, Part, Value, TType, t_stop, t_struct, t_list, TMessageType, Token, token, Val,
  struct_val, list_val, Fields, no_field, field, Elements, no_element, element, type_of, encode,
  encode_fields, encode_elements, message_begin, message_end, struct_begin, struct_end, field_begin,
  field_end, list_begin, list_end, i32, i64, double, text, exception,
}
use apache_thrift_benchmarki.Rpc.Wire.Ends.{Carries}
use apache_thrift_benchmarki.Rpc.Call.Processing.{Connected}
use apache_thrift_benchmarki.Rpc.Call.Concurrent.{Sync}
use apache_thrift_benchmarki.Rpc.Call.Concurrent.Sharing.{Stash, IsSync, to_read}

pub data Bracket : Type 0 where
  opening closing plain : Bracket

bracket : Part → Bracket
bracket struct_begin = opening
bracket list_begin = opening
bracket struct_end = closing
bracket list_end = closing
bracket _ = plain

module _ {D : Type 0} where
  -- The rest after the brackets that are open are closed.
  drop_value : ℕ → List (Token D) → List (Token D)
  unfolding bracket
  drop_value depth [] = []
  drop_value depth (token part v ∷ ts) = elim (bracket part) [
    | opening ↦ drop_value (suc depth) ts
    | closing ↦ elim depth [ zero ↦ ts | suc zero ↦ ts | suc (suc d) ↦ drop_value (suc d) ts ]
    | plain ↦ drop_value depth ts
  ]

  skip_tokens : TType → List (Token D) → List (Token D)
  unfolding drop_value
  skip_tokens ty [] = []
  skip_tokens t_struct (t ∷ ts) = drop_value 1 ts
  skip_tokens t_list (t ∷ ts) = drop_value 1 ts
  skip_tokens ty (t ∷ ts) = ts

  mutual
    unfolding drop_value encode

    drop_value-encode :
        (v : Val D) (d : ℕ) (ts : List (Token D))
        → drop_value (suc d) (encode v ts) ≡ drop_value (suc d) ts
    drop_value-encode (struct_val fs) d ts = drop_value-fields fs (suc d) _
    drop_value-encode (list_val ty es) d ts = drop_value-elements es (suc d) _
    drop_value-encode v d ts = refl

    drop_value-fields :
        (fs : Fields D) (d : ℕ) (ts : List (Token D))
        → drop_value (suc d) (encode_fields fs ts) ≡ drop_value (suc d) ts
    drop_value-fields no_field d ts = refl
    drop_value-fields (field fid v fs) d ts = drop_value-encode v d _ ∙ drop_value-fields fs d ts

    drop_value-elements :
        (es : Elements D) (d : ℕ) (ts : List (Token D))
        → drop_value (suc d) (encode_elements es ts) ≡ drop_value (suc d) ts
    drop_value-elements no_element d ts = refl
    drop_value-elements (element v es) d ts = drop_value-encode v d _ ∙ drop_value-elements es d ts

  skip_tokens-encode :
      (v : Val D) (ts : List (Token D)) → skip_tokens (type_of v) (encode v ts) ≡ ts
  unfolding skip_tokens encode
  skip_tokens-encode (struct_val fs) ts = drop_value-fields fs 0 _
  skip_tokens-encode (list_val ty es) ts = drop_value-elements es 0 _
  skip_tokens-encode v ts = refl

unfoldable pub as_part : (D : Type 0) (p part : Part) → Value D p → Option (Value D part)
as_part D message_begin message_begin v = some v
as_part D message_end message_end v = some v
as_part D struct_begin struct_begin v = some v
as_part D struct_end struct_end v = some v
as_part D field_begin field_begin v = some v
as_part D field_end field_end v = some v
as_part D list_begin list_begin v = some v
as_part D list_end list_end v = some v
as_part D i32 i32 v = some v
as_part D i64 i64 v = some v
as_part D double double v = some v
as_part D text text v = some v
as_part D exception exception v = some v
as_part D _ _ v = none

as_part_self : (D : Type 0) (part : Part) (v : Value D part) → as_part D part part v ≡ some v
unfolding as_part
as_part_self D message_begin v = refl
as_part_self D message_end v = refl
as_part_self D struct_begin v = refl
as_part_self D struct_end v = refl
as_part_self D field_begin v = refl
as_part_self D field_end v = refl
as_part_self D list_begin v = refl
as_part_self D list_end v = refl
as_part_self D i32 v = refl
as_part_self D i64 v = refl
as_part_self D double v = refl
as_part_self D text v = refl
as_part_self D exception v = refl

abbrev pub disconnected : Exception
disconnected = transport (codes "No more data to read.")

-- A protocol on the queue that `get` and `put` reach.
module _ {W D : Type 0} (get : W → List (Token D)) (put : List (Token D) → W → W) where
  unfoldable pub read_token : (part : Part) → W → List (Token D) → Outcome (Value D part) × W
  unfolding as_part
  read_token part w [] = (thrown disconnected, w)
  read_token part w (token p v ∷ ts) = elim (as_part D p part v) [
    | none ↦ (thrown disconnected, w)
    | some v' ↦ (returned v', put ts w)
  ]

  unfoldable pub queue : Protocol W D
  unfolding read_token skip_tokens
  queue = record {
    write = λ part name v w. (returned tt, put (get w ++ token part v ∷ []) w);
    write_field_stop = λ w. (returned tt, put (get w ++ token field_begin (t_stop, pos 0) ∷ []) w);
    read = λ part w. read_token part w (get w);
    skip = λ ty w. (returned tt, put (skip_tokens ty (get w)) w);
    read_end = λ w. (returned tt, w);
    write_end = λ w. (returned tt, w);
    flush = λ w. (returned tt, w);
    what = λ e. elim e [
      | application kind why ↦ why
      | protocol kind ↦ []
      | transport why ↦ why
      | other why ↦ why
    ];
  }

  queue-Carries :
      (H : List (Token D) → W → Type 0)
      → ((ts : List (Token D)) (w : W) → H ts w → get w ≡ ts)
      → ((ts us : List (Token D)) (w : W) → H ts w → H us (put us w))
      → Carries queue H
  unfolding queue read_token
  queue-Carries H gets puts = record {
    writes = λ part name v ts. record {
      at = λ w h. (_, refl, rw (gets ts w h) (puts ts (ts ++ token part v ∷ []) w h));
    };
    stops = λ ts. record {
      at = λ w h.
          (_, refl, rw (gets ts w h) (puts ts (ts ++ token field_begin (t_stop, pos 0) ∷ []) w h));
    };
    reads = λ part v ts. record {
      at = λ w h. (
        put ts w,
        rw (gets (token part v ∷ ts) w h) (rw (as_part_self D part v, read_token) refl),
        puts (token part v ∷ ts) ts w h,
      );
    };
    skips = λ v ts. record {
      at = λ w h. (
        put ts w,
        rw (gets (encode v ts) w h) (rw (skip_tokens-encode v ts) refl),
        puts (encode v ts) ts w h,
      );
    };
    read_ends = λ ts. record { at = λ w h. (w, refl, h) };
    write_ends = λ ts. record { at = λ w h. (w, refl, h) };
    flushes = λ ts. record { at = λ w h. (w, refl, h) };
  }

-- The handler's state, the request and the response on their way.
abbrev pub Loop : Type 0 → Type 0 → Type 0
Loop S D = S × List (Token D) × List (Token D)

module _ {S D : Type 0} where
  pub loop_request : Protocol (Loop S D) D
  unfolding queue
  loop_request = queue (λ w. w.1) (λ ts w. (w.0, ts, w.2))

  pub loop_response : Protocol (Loop S D) D
  unfolding queue
  loop_response = queue (λ w. w.2) (λ ts w. (w.0, w.1, ts))

  abbrev pub LoopHolds : S → List (Token D) → List (Token D) → Loop S D → Type 0
  LoopHolds s q r w = w ≡ (s, q, r)

  pub loop_request-Carries :
      (s : S) (r : List (Token D)) → Carries loop_request (λ q. LoopHolds s q r)
  unfolding loop_request
  loop_request-Carries s r =
      queue-Carries (λ w. w.1) (λ ts w. (w.0, ts, w.2)) (λ q. LoopHolds s q r) (λ ts w h. rw h refl)
        (λ ts us w h. rw h refl)

  pub loop : Connected loop_request loop_response LoopHolds
  unfolding loop_response
  loop = record {
    requests = loop_request-Carries;
    responses = λ s q.
        queue-Carries (λ w. w.2) (λ ts w. (w.0, w.1, ts)) (LoopHolds s q) (λ ts w h. rw h refl)
          (λ ts us w h. rw h refl);
  }

-- The calls that other threads wait for.
abbrev pub others_wait : ℤ → Bool
others_wait n = if eq_ℤ n (pos 2) then true else eq_ℤ n (pos 3)

abbrev pub Shared : Type 0 → Type 0
Shared D = Loop (Stash × Bool) D

after_first : {D : Type 0} → List (Token D) → List (Token D)
after_first [] = []
after_first (t ∷ ts) = ts

module _ {D : Type 0} where
  abbrev put_aside : Text × TMessageType × ℤ → Shared D → Shared D
  put_aside head w = ((some head, w.0.1), w.1, w.2)

  -- `wait_for_work` lets the other thread read the message whose head was put aside.
  pub loop_sync : Sync (Shared D)
  unfolding after_first skip_tokens
  loop_sync = record {
    generate_seq_id = λ w. (returned (pos 1), w);
    send_enter = λ w. (returned tt, w);
    send_commit = λ w. (returned tt, w);
    send_leave = λ w. (returned tt, w);
    recv_enter = λ seqid w. (returned tt, w);
    recv_commit = λ w. (returned tt, ((w.0.0, true), w.1, w.2));
    recv_leave = λ w. (returned tt, w);
    get_pending = λ w. (returned w.0.0, ((none, w.0.1), w.1, w.2));
    update_pending = λ head w. (
      if others_wait head.2
          then returned tt
          else thrown (application bad_sequence_id (codes "server sent a bad seqid")),
      put_aside head w,
    );
    wait_for_work =
        λ seqid w. (returned tt, ((none, w.0.1), w.1, after_first (skip_tokens t_struct w.2)));
  }

  abbrev pub SyncHolds : Stash → Bool → List (Token D) → Shared D → Type 0
  SyncHolds stash committed ts w = w ≡ ((stash, committed), [], ts)

  pub SyncHolds-Carries :
      (stash : Stash) (committed : Bool) → Carries loop_response (SyncHolds stash committed)
  SyncHolds-Carries stash committed = loop.responses (stash, committed) []

  pub loop_sync-IsSync : IsSync loop_sync others_wait SyncHolds
  unfolding loop_sync after_first
  loop_sync-IsSync = record {
    enters = λ seqid ts. record { at = λ w h. (w, refl, h) };
    leaves = λ stash c ts. record { at = λ w h. (w, refl, h) };
    commits = λ ts. record { at = λ w h. (_, refl, rw h refl) };
    takes = λ stash ts. record { at = λ w h. (((none, false), [], ts), rw h refl, refl) };
    updates = λ head ts e. record { at = λ w h. (put_aside head w, rw e refl, rw h refl) };
    refuses = λ head ts e. record { at = λ w h. (put_aside head w, rw e refl, rw h refl) };
    waits = λ seqid other others name mtype ts foreign known. record {
      at = λ w h. (
        _,
        refl,
        to_read [] others refl (rw h (rw (skip_tokens-encode (struct_val other.fields) _) refl)),
      );
    };
  }
