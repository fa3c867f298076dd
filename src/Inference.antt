-- ===== src/Inference.antt =====
-- MLInfer: `compute_list` of the three servers, which copies a client's 3 by 224 by 224 numbers into a
-- tensor and runs a model on it, without what it prints; `computed_value` is in Values. Torch and the
-- number types are a parameter.
pub mod Copy
pub mod Tensor
pub mod Answer
pub mod Short
pub mod Values
use apache_thrift_benchmarki.Prelude.{
  ℕ, zero, suc, ◌+◌, ◌*◌, List, [], ◌∷◌, Option, none, some, get_elem?, replicate, length,
}
use apache_thrift_benchmarki.Prelude.Lists.{set}
use apache_thrift_benchmarki.Format.{Text, codes}

-- Torch, double and float. `load` is none where `torch::jit::load` throws, and `forward` is none where
-- it throws.
pub record Torch : Type 1 where
  pub Double : Type 0
  pub Float : Type 0
  pub Module : Type 0
  pub to_float : Double → Float
  pub one : Float
  pub unset : Float
  pub empty_module : Module
  pub load : Option Module
  pub Tensor : Type 0
  pub forward : Module → List Float → Option Tensor
  -- `output.slice(1, 0, 5)` as it is printed; none where the slice throws.
  pub sliced : Tensor → Option Text

-- A call returns a text, throws, or reads or writes outside a vector.
pub data Result : Type 0 where
  returned : Text → Result
  thrown : Result
  undefined : Result

-- `for (int i = …; i < …; i++) dst[i] = f(src[i], dst[i])`, from `i` on; none outside a vector.
unfoldable pub copy_from :
    {A B : Type 0} → (A → B → Option B) → ℕ → ℕ → List A → List B → Option (List B)
copy_from f zero i src dst = some dst
copy_from f (suc rounds) i src dst = elim (get_elem? src i) [
  | none ↦ none
  | some a ↦ elim (get_elem? dst i) [
    | none ↦ none
    | some b ↦ elim (f a b) [
      | none ↦ none
      | some b' ↦ copy_from f rounds (i + 1) src (set dst i b')
    ]
  ]
]

-- `*data++ = k` over a row: the position, and the tensor's memory; none outside it.
unfoldable pub store_row : {F : Type 0} → List F → ℕ → List F → Option (ℕ × List F)
store_row [] at memory = some (at, memory)
store_row (k ∷ row) at memory = elim (get_elem? memory at) [
  | none ↦ none
  | some _ ↦ store_row row (at + 1) (set memory at k)
]

unfoldable pub store_plane : {F : Type 0} → List (List F) → ℕ → List F → Option (ℕ × List F)
unfolding store_row
store_plane [] at memory = some (at, memory)
store_plane (row ∷ plane) at memory = elim (store_row row at memory) [
  | none ↦ none
  | some (at', memory') ↦ store_plane plane at' memory'
]

unfoldable pub store : {F : Type 0} → List (List (List F)) → ℕ → List F → Option (ℕ × List F)
unfolding store_plane
store [] at memory = some (at, memory)
store (plane ∷ planes) at memory = elim (store_plane plane at memory) [
  | none ↦ none
  | some (at', memory') ↦ store planes at' memory'
]

module _ (torch : Torch) where
  open torch use {
    Double, Float, Module, to_float, one, unset, empty_module, load, Tensor, forward, sliced,
  }

  unfoldable pub copy_row : ℕ → List Double → List Float → Option (List Float)
  unfolding copy_from
  copy_row width values = copy_from (λ v _. some (to_float v)) width 0 values

  unfoldable pub copy_plane :
      ℕ → ℕ → List (List Double) → List (List Float) → Option (List (List Float))
  unfolding copy_row
  copy_plane height width values = copy_from (copy_row width) height 0 values

  unfoldable pub copy :
      ℕ
      → ℕ
      → ℕ
      → List (List (List Double))
      → List (List (List Float))
      → Option (List (List (List Float)))
  unfolding copy_plane
  copy depth height width values = copy_from (copy_plane height width) depth 0 values

  -- `random_input` as it is constructed.
  abbrev pub ones : ℕ → ℕ → ℕ → List (List (List Float))
  ones depth height width = replicate depth (replicate height (replicate width one))

  -- The module after the `try` block.
  abbrev pub loaded : Module
  loaded = elim load [ none ↦ empty_module | some m ↦ m ]

  -- What follows on the model, with the text that the call assigns.
  abbrev pub run_model : Text → Option Tensor → Result
  run_model answer none = thrown
  run_model answer (some _) = returned answer

  abbrev pub show_slice : Text → Option Text → Result
  show_slice answer none = thrown
  show_slice answer (some _) = returned answer

  -- The same where a slice of the output is printed.
  abbrev pub run_and_show : Text → Option Tensor → Result
  run_and_show answer none = thrown
  run_and_show answer (some output) = show_slice answer (sliced output)

  -- `compute_list` over a volume of the given size, with what it does with the model's output.
  unfoldable pub compute_volume :
      ℕ → ℕ → ℕ → (Option Tensor → Result) → List (List (List Double)) → Result
  unfolding copy store
  compute_volume depth height width finish values =
      elim (copy depth height width values (ones depth height width)) [
        | none ↦ undefined
        | some random_input ↦
            elim (store random_input 0 (replicate (1 * depth * height * width) unset)) [
              | none ↦ undefined
              | some (_, tensor) ↦ finish (forward loaded tensor)
            ]
      ]

  -- MLInfer/tthreaded
  unfoldable pub threaded_compute_list : List (List (List Double)) → Result
  threaded_compute_list = compute_volume 3 224 224 (run_model (codes "processed"))

  -- MLInfer/nonblocking
  unfoldable pub nonblocking_compute_list : List (List (List Double)) → Result
  nonblocking_compute_list = compute_volume 3 224 224 (run_and_show (codes "Hello World"))

  -- MLInfer/threadpool
  unfoldable pub thread_pool_compute_list : List (List (List Double)) → Result
  thread_pool_compute_list = compute_volume 3 224 224 (run_and_show (codes "Hello World"))
