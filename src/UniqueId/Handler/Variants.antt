-- ===== src/UniqueId/Handler/Variants.antt =====
-- The six servers against one another.
use apache_thrift_benchmarki.Prelude.{ℕ, ◌≡◌, refl, sym, ap, ◌∙◌, arith}
use apache_thrift_benchmarki.Prelude.Int.{ℤ}
use apache_thrift_benchmarki.Format.{Text, to_string}
use apache_thrift_benchmarki.UniqueId.Process.{
  Process, Line, Outcome, returned, thrown, exit_failure, undefined, and_then, return, say, print,
}
use apache_thrift_benchmarki.UniqueId.Counter.{get_counter}
use apache_thrift_benchmarki.UniqueId.Handler.{
  Call, post_id, thread_pool_compute_unique_id, nonblocking_compute_unique_id,
  threaded_compute_unique_id, async_thread_pool_compute_unique_id,
  async_nonblocking_compute_unique_id, async_threaded_compute_unique_id,
}
use apache_thrift_benchmarki.UniqueId.Handler.Layout.{id_number, timestamp_of, post_id_lem}
use apache_thrift_benchmarki.UniqueId.Machine.Answer.{survey, surveyed}

-- The outcome of one thing after another, where the second always returns.
abbrev mapped : {A B : Type 0} → (A → B) → Outcome A → Outcome B
mapped f (returned a) = returned (f a)
mapped f (thrown e) = thrown e
mapped f exit_failure = exit_failure
mapped f undefined = undefined

and_then-mapped :
    {A B : Type 0} (f : A → B) (g : A → Process → Process) (r : Outcome A × Process)
    → (and_then r (λ a q. (returned (f a), g a q))).0 ≡ mapped f r.0
and_then-mapped f g (returned a, q) = refl
and_then-mapped f g (thrown e, q) = refl
and_then-mapped f g (exit_failure, q) = refl
and_then-mapped f g (undefined, q) = refl

get_counter-print :
    (t : ℤ) (l : Line) (p : Process) → (get_counter t (print l p)).0 ≡ (get_counter t p).0
unfolding get_counter
get_counter-print t l p = ground arith

post_id-outcome :
    (call : Call) (p : Process)
    → (post_id call p).0
      ≡ mapped (id_number call.host (timestamp_of call)) (get_counter (timestamp_of call) p).0
post_id-outcome call p =
    ap (λ r. r.0) (post_id_lem call p)
    ∙ and_then-mapped (id_number call.host (timestamp_of call)) (λ _. surveyed (survey call.host))
        (get_counter (timestamp_of call) p)

post_id-print :
    (call : Call) (l : Line) (p : Process) → (post_id call (print l p)).0 ≡ (post_id call p).0
post_id-print call l p =
    post_id-outcome call (print l p)
    ∙ ap (mapped (id_number call.host (timestamp_of call)))
        (get_counter-print (timestamp_of call) l p)
    ∙ sym (post_id-outcome call p)

text_outcome :
    (call : Call) (p : Process)
    → (thread_pool_compute_unique_id call p).0 ≡ mapped to_string (post_id call p).0
unfolding thread_pool_compute_unique_id
text_outcome call p = and_then-mapped to_string (λ _ q. q) (post_id call p)

-- From the same process state the nonblocking and the threaded server of DSBUniqueIDService end a
-- call as the thread pool server does: with the same text, or in the same failure.
pub compute_unique_id-same :
    (call : Call) (p : Process)
    → ((nonblocking_compute_unique_id call p).0 ≡ (thread_pool_compute_unique_id call p).0)
      × ((threaded_compute_unique_id call p).0 ≡ (thread_pool_compute_unique_id call p).0)
unfolding nonblocking_compute_unique_id threaded_compute_unique_id
compute_unique_id-same call p = (after_line, after_line)
  where
    line : Line
    line = Line.current_thread call.thread

    after_line :
        (and_then (post_id call (print line p)) (λ id. return (to_string id))).0
        ≡ (thread_pool_compute_unique_id call p).0
    after_line =
        and_then-mapped to_string (λ _ q. q) (post_id call (print line p))
        ∙ ap (mapped to_string) (post_id-print call line p)
        ∙ sym (text_outcome call p)

said :
    (r : Outcome ℕ × Process) {text : Text}
    → mapped to_string r.0 ≡ returned text
    → (id : ℕ) × (to_string id ≡ text)
      × (and_then r (λ i. say (Line.unique_id_is i))
          ≡ (returned tt, print (Line.unique_id_is id) r.1))
said (returned i, q) h = (i, ground arith, refl)
said (thrown e, q) h = cc
said (exit_failure, q) h = cc
said (undefined, q) h = cc

quiet :
    (r : Outcome ℕ × Process) {text : Text}
    → mapped to_string r.0 ≡ returned text
    → and_then r (λ _. return tt) ≡ (returned tt, r.1)
quiet (returned i, q) h = refl
quiet (thrown e, q) h = cc
quiet (exit_failure, q) h = cc
quiet (undefined, q) h = cc

-- Where the thread pool server of DSBUniqueIDService returns a text, each server of
-- DSBUniqueIDAsyncService returns nothing; its thread pool and nonblocking servers print an id that
-- the text shows, and its threaded server leaves the process as post_id does.
pub async_compute_unique_id-prints :
    (call : Call) (p : Process) {text : Text}
    → (thread_pool_compute_unique_id call p).0 ≡ returned text
    → let q = print (Line.current_thread call.thread) p in
      ((id : ℕ) × (to_string id ≡ text)
        × (async_thread_pool_compute_unique_id call p
            ≡ (returned tt, print (Line.unique_id_is id) (post_id call p).1)))
      × ((id : ℕ) × (to_string id ≡ text)
          × (async_nonblocking_compute_unique_id call p
              ≡ (returned tt, print (Line.unique_id_is id) (post_id call q).1)))
      × (async_threaded_compute_unique_id call p ≡ (returned tt, (post_id call q).1))
unfolding async_thread_pool_compute_unique_id async_nonblocking_compute_unique_id
    async_threaded_compute_unique_id
async_compute_unique_id-prints call p {text} h = (
  said (post_id call p) (sym (text_outcome call p) ∙ h),
  said (post_id call q) printed,
  quiet (post_id call q) printed,
)
  where
    q : Process
    q = print (Line.current_thread call.thread) p

    printed : mapped to_string (post_id call q).0 ≡ returned text
    printed =
        ap (mapped to_string) (post_id-print call (Line.current_thread call.thread) p)
        ∙ sym (text_outcome call p)
        ∙ h
