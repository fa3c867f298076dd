-- ===== src/Echo.antt =====
-- The handlers of the echo services: `hello_world` of EchoService (echoservice-ttd, echoservice-nb and
-- echoservice-threadpool), `call` of EchoServerHindsight/tthreaded, which traces its requests, and
-- `compute_result` of AsyncEchoServer.
pub mod Traced
use apache_thrift_benchmarki.Prelude.{
  ℕ, zero, suc, ◌+◌, ◌-◌, ◌%◌, ◌^◌, ◌≡◌, Bool, true, false, ◌&&◌, List, [], ◌∷◌, ◌++◌, Option, none,
  some, ltb, leb, ◌==◌, if◌then◌else◌, length,
}
use apache_thrift_benchmarki.Prelude.Int.{ℤ, pos, negsuc, ◌+ℤ◌, eq_ℤ}
use apache_thrift_benchmarki.Format.{Text, codes, to_string, show_ℤ}

-- What a handler does, in order. The calls of the tracer are those of tracer/hindsight.h.
pub data Event : Type 0 where
  printed : Text → Event
  slept : ℕ → Event
  begin_trace : ℤ → Event
  tracepoint : Text → ℕ → Event  -- a buffer that holds the text, and its size
  trigger : ℤ → Event
  end_trace : Event

-- The events of a call and the text that it returns; a thread is shown as it is printed.
unfoldable pub threaded_hello_world : Text → List Event × Text
threaded_hello_world curr_thread =
    (printed (codes "The thread is " ++ curr_thread) ∷ slept 1 ∷ [], codes "This is Sparta")

unfoldable pub nonblocking_hello_world : Text → List Event × Text
nonblocking_hello_world curr_thread =
    (printed (codes "Current Thread is " ++ curr_thread) ∷ slept 1 ∷ [], codes "Hello World")

unfoldable pub thread_pool_hello_world : Text → List Event × Text
thread_pool_hello_world curr_thread =
    (printed (codes "The thread is " ++ curr_thread) ∷ slept 1 ∷ [], codes "This is Sparta")

-- The remainder of C++, which has the sign of the dividend.
abbrev pub rem_2 : ℤ → ℤ
rem_2 (pos n) = pos (n % 2)
rem_2 (negsuc n) = if suc n % 2 == 0 then pos 0 else negsuc 0

-- `sprintf(mess, "request_%ld", req_id)` into `char mess[32]`: the text, or none where it and its
-- terminator do not fit.
unfoldable pub request_name : ℤ → Option Text
request_name req_id =
    let mess = codes "request_" ++ show_ℤ req_id in
    if leb (length mess + 1) 32 then some mess else none

unfoldable pub call : ℤ → Option (List Event)
call req_id = elim (request_name req_id) [
  | none ↦ none
  | some mess ↦ some (
      begin_trace req_id
        ∷ tracepoint mess 32
        ∷ printed (show_ℤ req_id)
        ∷ (if eq_ℤ (rem_2 req_id) (pos 1)
            then printed (codes "Sending trigger: " ++ show_ℤ req_id) ∷ trigger req_id ∷ []
            else [])
      ++ end_trace ∷ [])
]

-- An int64_t.
abbrev pub fits_64 : ℤ → Bool
fits_64 (pos n) = ltb n (2 ^ 63)
fits_64 (negsuc n) = ltb n (2 ^ 63)

-- AsyncEchoServer; none where the sum overflows.
unfoldable pub compute_result : ℤ → ℤ → Option (List Event)
compute_result num_1 num_2 =
    if fits_64 (num_1 +ℤ num_2)
    then some (
        printed (codes "Sleeping for 5 seconds")
        ∷ slept 5
        ∷ printed (codes "Computed Result: " ++ show_ℤ (num_1 +ℤ num_2))
        ∷ [])
    else none
