-- ===== src/Inference/Values/Ones.antt =====
-- `computed_value` and `compute_list` on ones.
use Prim.Native.Nat.add
use apache_thrift_benchmarki.Prelude.{
  ℕ, zero, suc, ◌+◌, ◌*◌, ◌≤◌, ◌≡◌, refl, sym, ap, ◌∙◌, arith, List, ◌∷◌, ◌++◌, Option, none, some,
  Option-cases, ◌⊎◌, inl, inr, replicate, length, take,
}
use apache_thrift_benchmarki.Prelude.Int.{ℤ}
use apache_thrift_benchmarki.Format.{Text, codes}
use apache_thrift_benchmarki.Inference.{
  Torch, Result, returned, thrown, ones, loaded, run_model, run_and_show, compute_volume,
  threaded_compute_list, nonblocking_compute_list, thread_pool_compute_list,
}
use apache_thrift_benchmarki.Inference.Copy.{Tall, cut}
use apache_thrift_benchmarki.Inference.Tensor.{flat, flat_planes}
use apache_thrift_benchmarki.Inference.Answer.{plus_times, volume, compute_volume-enough}
use apache_thrift_benchmarki.Inference.Values.{
  Printed, and_print, show_output, ones_tensor, infer_ones, matrix_multiplication, ml_inference,
  threaded_computed_value, nonblocking_computed_value, thread_pool_computed_value,
}

replicate-+ : {A : Type 0} (n m : ℕ) (x : A) → replicate n x ++ replicate m x ≡ replicate (n + m) x
replicate-+ zero m x = rw (add.zero m) refl
replicate-+ (suc n) m x = rw (add.suc n m) (ap (λ s. x ∷ s) (replicate-+ n m x))

no_times : (n : ℕ) → 0 ≡ 0 * n
no_times n = omega arith

flat-replicate :
    {A : Type 0} (n w : ℕ) (x : A) → flat (replicate n (replicate w x)) ≡ replicate (n * w) x
flat-replicate zero w x = ap (λ k. replicate k x) (no_times w)
flat-replicate (suc n) w x =
    rw (flat-replicate n w x) (replicate-+ w (n * w) x) ∙ ap (λ k. replicate k x) (plus_times n w)

flat_planes-replicate :
    {A : Type 0} (d n w : ℕ) (x : A)
    → flat_planes (replicate d (replicate n (replicate w x))) ≡ replicate (d * (n * w)) x
flat_planes-replicate zero n w x = ap (λ k. replicate k x) (no_times (n * w))
flat_planes-replicate (suc d) n w x =
    rw (flat_planes-replicate d n w x)
      (rw (flat-replicate n w x) (replicate-+ (n * w) (d * (n * w)) x))
    ∙ ap (λ k. replicate k x) (plus_times d (n * w))

-- A call of `compute_list` that returns this text where a call of `computed_value` returns.
abbrev pub as_result : Text → Option (Unit {0}) → Result
as_result answer none = thrown
as_result answer (some done) = returned answer

pub ending-and_print : (p : Printed) (line : Text) → (and_print p line).1 ≡ p.1
ending-and_print (lines, none) line = refl
ending-and_print (lines, some done) line = refl

module _ (torch : Torch) where
  open torch use {Double, Tensor, forward, sliced}

  run_and_show-show_output :
      (answer done : Text) (output : Option Tensor)
      → run_and_show torch answer output ≡ as_result answer (show_output torch done output).1
  run_and_show-show_output answer done none = refl
  run_and_show-show_output answer done (some output) = elim (Option-cases (sliced output)) [
    | inl fails ↦ rw fails refl
    | inr (slice, e) ↦ rw e refl
  ]

  -- A call of `compute_list` that does not look at the output ends as one of `computed_value`, or the
  -- latter threw at its slice.
  abbrev pub EndsAsOrSliceThrew : Text → Option Tensor → Result → Option (Unit {0}) → Type 0
  EndsAsOrSliceThrew answer output result ending =
      (result ≡ as_result answer ending)
      ⊎ ((result ≡ returned answer)
          × (ending ≡ none)
          × (tensor : Tensor) × (output ≡ some tensor)
          × (sliced tensor ≡ none))

  run_model-show_output :
      (answer done : Text) (output : Option Tensor)
      → EndsAsOrSliceThrew answer output
          (run_model torch answer output)
          (show_output torch done output).1
  run_model-show_output answer done none = inl refl
  run_model-show_output answer done (some output) = elim (Option-cases (sliced output)) [
    | inl fails ↦ inr (refl, rw fails refl, output, refl, fails)
    | inr (slice, e) ↦ inl (rw e refl)
  ]

  -- The model gets the same tensor.
  compute_volume-ones :
      (depth height width : ℕ) (finish : Option Tensor → Result)
      (values : List (List (List Double)))
      → depth ≤ length values
      → Tall torch height width (take depth values)
      → cut torch depth height width values ≡ ones torch depth height width
      → compute_volume torch depth height width finish values
        ≡ finish (forward (loaded torch) (ones_tensor torch depth height width))
  unfolding ones_tensor
  compute_volume-ones depth height width finish values h tall all_ones =
      compute_volume-enough torch depth height width finish values h tall
      ∙ ap (λ planes. finish (forward (loaded torch) (flat_planes planes))) all_ones
      ∙ ap (λ tensor. finish (forward (loaded torch) tensor))
          (flat_planes-replicate depth height width torch.one
            ∙ ap (λ k. replicate k torch.one) (sym (volume depth height width)))

  -- Where every number that compute_list copies becomes 1.0 as a float, compute_list of the
  -- nonblocking and of the thread pool server returns its text exactly where computed_value of that
  -- server returns, whatever row and column the latter gets, and throws where that throws; in the
  -- threaded server they end alike too, except that computed_value throws and compute_list returns
  -- where the output of the model cannot be sliced.
  pub computed_value-compute_list :
      (row column : ℤ) (values : List (List (List Double)))
      → 3 ≤ length values
      → Tall torch 224 224 (take 3 values)
      → cut torch 3 224 224 values ≡ ones torch 3 224 224
      → EndsAsOrSliceThrew
          (codes "processed")
          (forward (loaded torch) (ones_tensor torch 3 224 224))
          (threaded_compute_list torch values)
          (threaded_computed_value torch row column).1
        × (nonblocking_compute_list torch values
            ≡ as_result (codes "Hello World") (nonblocking_computed_value torch row column).1)
        × (thread_pool_compute_list torch values
            ≡ as_result (codes "Hello World") (thread_pool_computed_value torch row column).1)
  unfolding threaded_compute_list nonblocking_compute_list thread_pool_compute_list
      threaded_computed_value nonblocking_computed_value thread_pool_computed_value
      matrix_multiplication ml_inference infer_ones
  computed_value-compute_list row column values h tall all_ones = (
    rw (compute_volume-ones 3 224 224 (run_model torch (codes "processed")) values h tall all_ones)
        (rw
          (ending-and_print (matrix_multiplication torch row column) (codes "Finished computation"))
          (run_model-show_output (codes "processed") (codes "ok") _)),
    compute_volume-ones 3 224 224 (run_and_show torch (codes "Hello World")) values h tall all_ones
        ∙ run_and_show-show_output (codes "Hello World") (codes "Inference completed") _,
    compute_volume-ones 3 224 224 (run_and_show torch (codes "Hello World")) values h tall all_ones
        ∙ run_and_show-show_output (codes "Hello World") (codes "Inference completed") _,
  )
