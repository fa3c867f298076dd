-- ===== src/Inference/Values.antt =====
-- MLInfer: `computed_value` of the three servers, which runs the model on ones, with what it prints.
pub mod Ones
use apache_thrift_benchmarki.Prelude.{ℕ, ◌*◌, List, [], ◌∷◌, ◌++◌, Option, none, some, replicate}
use apache_thrift_benchmarki.Prelude.Int.{ℤ}
use apache_thrift_benchmarki.Format.{Text, codes, show_ℤ}
use apache_thrift_benchmarki.Inference.{Torch, loaded}

-- A line on standard output or on standard error.
pub data Line : Type 0 where
  out err : Text → Line

-- What a call printed, and whether it returned or threw.
abbrev pub Printed : Type 0
Printed = List Line × Option (Unit {0})

abbrev pub then_print : List Line → Printed → Printed
then_print lines (more, ending) = (lines ++ more, ending)

-- A line behind what a call printed that returned.
abbrev pub and_print : Printed → Text → Printed
and_print (lines, none) line = (lines, none)
and_print (lines, some done) line = (lines ++ out line ∷ [], some done)

module _ (torch : Torch) where
  open torch use {Float, Tensor, one, load, forward, sliced}

  -- The handler of `c10::Error`.
  abbrev pub load_error : Text → List Line
  load_error why = elim load [ none ↦ err why ∷ [] | some m ↦ [] ]

  abbrev pub print_slice : Text → Option Text → Printed
  print_slice done none = ([], none)
  print_slice done (some slice) = (out slice ∷ out done ∷ [], some tt)

  abbrev pub show_output : Text → Option Tensor → Printed
  show_output done none = ([], none)
  show_output done (some output) = print_slice done (sliced output)

  -- `torch::ones`, number by number.
  unfoldable pub ones_tensor : ℕ → ℕ → ℕ → List Float
  ones_tensor depth height width = replicate (1 * depth * height * width) one

  -- Loads the model and runs it on a tensor of ones of the given size, with the texts that it prints.
  unfoldable pub infer_ones : ℕ → ℕ → ℕ → Text → Text → Printed
  infer_ones depth height width why done =
      then_print (load_error why)
        (show_output done (forward (loaded torch) (ones_tensor depth height width)))

  abbrev pub matrix_values : ℤ → ℤ → Line
  matrix_values row column =
      out (codes "Matrix values are " ++ (show_ℤ row ++ (codes " " ++ show_ℤ column)))

  -- MLInfer/tthreaded
  unfoldable pub matrix_multiplication : ℤ → ℤ → Printed
  matrix_multiplication row column =
      infer_ones 3 224 224 (codes "error loading the model") (codes "ok")

  unfoldable pub threaded_computed_value : ℤ → ℤ → Printed
  threaded_computed_value row column =
      then_print (matrix_values row column ∷ [])
        (and_print (matrix_multiplication row column) (codes "Finished computation"))

  -- MLInfer/nonblocking and MLInfer/threadpool
  unfoldable pub ml_inference : Printed
  ml_inference =
      infer_ones 3 224 224 (codes "Error loading the model") (codes "Inference completed")

  -- MLInfer/nonblocking
  unfoldable pub nonblocking_computed_value : ℤ → ℤ → Printed
  nonblocking_computed_value row column = then_print (matrix_values row column ∷ []) ml_inference

  -- MLInfer/threadpool
  unfoldable pub thread_pool_computed_value : ℤ → ℤ → Printed
  thread_pool_computed_value row column = then_print (matrix_values row column ∷ []) ml_inference
