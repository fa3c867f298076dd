-- ===== src/Echo/Traced.antt =====
-- The trace of a request.
use apache_thrift_benchmarki.Prelude.{
  ℕ, suc, ◌%◌, ◌≤◌, ◌≡◌, refl, arith, Bool, false, [], ◌∷◌, ◌++◌, some, ◌==◌, if◌then◌else◌, length,
}
use apache_thrift_benchmarki.Prelude.Int.{ℤ, pos, negsuc, eq_ℤ}
use apache_thrift_benchmarki.Format.{codes, to_string, digits, show_ℤ}
use apache_thrift_benchmarki.Format.Width.{length-digits, length-strip-le}
use apache_thrift_benchmarki.Echo.{
  printed, begin_trace, tracepoint, trigger, end_trace, rem_2, request_name, call,
}

length-to_string-le : (n : ℕ) → length (to_string n) ≤ 20
unfolding to_string
length-to_string-le n = omega (arith, length-strip-le (digits 10 20 n), length-digits 10 20 n)

length-show_ℤ-le : (i : ℤ) → length (show_ℤ i) ≤ 21
unfolding show_ℤ
length-show_ℤ-le (pos n) = omega (arith, length-to_string-le n)
length-show_ℤ-le (negsuc n) = omega (arith, length-to_string-le (suc n))

request_name-fits : (req_id : ℤ) → request_name req_id ≡ some (codes "request_" ++ show_ℤ req_id)
unfolding request_name
request_name-fits req_id = ground (arith, length-show_ℤ-le req_id)

-- The numbers for which a call triggers: the positive odd ones.
abbrev pub is_positive_odd : ℤ → Bool
is_positive_odd (pos n) = n % 2 == 1
is_positive_odd (negsuc n) = false

rem_2-odd : (i : ℤ) → eq_ℤ (rem_2 i) (pos 1) ≡ is_positive_odd i
rem_2-odd (pos n) = ground arith
rem_2-odd (negsuc n) = ground arith

-- For every request id the name of the tracepoint fits its buffer of 32 bytes, and the call begins
-- its trace, sets one tracepoint, triggers exactly if the id is positive and odd, and ends its
-- trace.
pub call-traces :
    (req_id : ℤ)
    → call req_id
      ≡ some (
          begin_trace req_id
            ∷ tracepoint (codes "request_" ++ show_ℤ req_id) 32
            ∷ printed (show_ℤ req_id)
            ∷ (if is_positive_odd req_id
                then printed (codes "Sending trigger: " ++ show_ℤ req_id) ∷ trigger req_id ∷ []
                else [])
          ++ end_trace ∷ [])
unfolding call
call-traces req_id = rw (request_name-fits req_id, call) (rw (rem_2-odd req_id) refl)
