-- ===== src/Inference/Answer.antt =====
-- What a call to `compute_list` gives, by the size of its input.
use apache_thrift_benchmarki.Prelude.{
  ℕ, suc, ◌+◌, ◌*◌, ◌≤◌, ◌≡◌, refl, sym, ap, ◌∙◌, arith, List, [], ◌∷◌, map, replicate, length,
  take, length-append, length-take, Option,
}
use apache_thrift_benchmarki.Prelude.Lists.{length-replicate}
use apache_thrift_benchmarki.Format.{codes}
use apache_thrift_benchmarki.Inference.{
  Torch, Result, loaded, run_model, run_and_show, compute_volume, threaded_compute_list,
  nonblocking_compute_list, thread_pool_compute_list,
}
use apache_thrift_benchmarki.Inference.Copy.{Wide, Tall, cut_row, cut_plane, cut, copy-cut}
use apache_thrift_benchmarki.Inference.Tensor.{flat, flat_planes, store-flat}

pub plus_times : (n w : ℕ) → w + n * w ≡ suc n * w
plus_times n w = omega arith

pub volume : (d h w : ℕ) → 1 * d * h * w ≡ d * (h * w)
volume d h w = omega arith

module _ (torch : Torch) where
  open torch use {Double, Float, Tensor, forward, unset, to_float}

  length-map_cast : (row : List Double) → length (map to_float row) ≡ length row
  length-map_cast [] = refl
  length-map_cast (v ∷ row) = ap suc (length-map_cast row)

  length-cut_row :
      (width : ℕ) (row : List Double)
      → width ≤ length row
      → length (cut_row torch width row) ≡ width
  length-cut_row width row h =
      length-map_cast (take width row) ∙ omega (arith, length-take width row)

  length-flat :
      (width : ℕ) (rows : List (List Double))
      → Wide torch width rows
      → length (flat (map (cut_row torch width) rows)) ≡ length rows * width
  length-flat width [] wide = omega arith
  length-flat width (row ∷ rows) wide =
      length-append (cut_row torch width row) (flat (map (cut_row torch width) rows))
      ∙ rw (length-flat width rows wide.1)
          (rw (length-cut_row width row wide.0) (plus_times (length rows) width))

  length-flat_planes :
      (height width : ℕ) (planes : List (List (List Double)))
      → Tall torch height width planes
      → length (flat_planes (map (cut_plane torch height width) planes))
        ≡ length planes * (height * width)
  length-flat_planes height width [] tall = omega arith
  length-flat_planes height width (plane ∷ planes) tall =
      length-append (flat (cut_plane torch height width plane))
        (flat_planes (map (cut_plane torch height width) planes))
      ∙ rw (length-flat_planes height width planes tall.2) (
          rw (length-flat width (take height plane) tall.1) (
            ap (λ n. n * width + length planes * (height * width))
              (length-take height plane ∙ omega (arith, tall.0))
            ∙ plus_times (length planes) (height * width)))

  pub compute_volume-enough :
      (depth height width : ℕ) (finish : Option Tensor → Result)
      (values : List (List (List Double)))
      → depth ≤ length values
      → Tall torch height width (take depth values)
      → compute_volume torch depth height width finish values
        ≡ finish (forward (loaded torch) (flat_planes (cut torch depth height width values)))
  unfolding compute_volume
  compute_volume-enough depth height width finish values h tall =
      rw (copy-cut torch depth height width values h tall, compute_volume)
        (rw
          (store-flat (cut torch depth height width values)
            (replicate (1 * depth * height * width) unset)
            (length-replicate (1 * depth * height * width) unset
              ∙ volume depth height width
              ∙ ap (λ n. n * (height * width)) (sym (length-take depth values ∙ omega (arith, h)))
              ∙ sym (length-flat_planes height width (take depth values) tall)))
          refl)

module _ (torch : Torch) where
  open torch use {Double, forward}

  -- On an input with at least 3 planes, of which the first 3 have at least 224 rows, of which the
  -- first 224 have at least 224 numbers, no server reads or writes outside a vector or the tensor:
  -- the loaded module, or an empty one where loading failed, gets the first 3 by 224 by 224 numbers
  -- as floats, plane by plane and row by row, and the call returns the fixed text of its server, or
  -- throws where the module does or, in the nonblocking and the thread pool server, where the slice
  -- of its output does.
  pub compute_list_lem :
      (values : List (List (List Double)))
      → 3 ≤ length values
      → Tall torch 224 224 (take 3 values)
      → (threaded_compute_list torch values
          ≡ run_model torch
              (codes "processed")
              (forward (loaded torch) (flat_planes (cut torch 3 224 224 values))))
        × (nonblocking_compute_list torch values
            ≡ run_and_show torch
                (codes "Hello World")
                (forward (loaded torch) (flat_planes (cut torch 3 224 224 values))))
        × (thread_pool_compute_list torch values
            ≡ run_and_show torch
                (codes "Hello World")
                (forward (loaded torch) (flat_planes (cut torch 3 224 224 values))))
  unfolding threaded_compute_list nonblocking_compute_list thread_pool_compute_list
  compute_list_lem values h tall = (
    compute_volume-enough torch 3 224 224 (run_model torch (codes "processed")) values h tall,
    compute_volume-enough torch 3 224 224 (run_and_show torch (codes "Hello World")) values h tall,
    compute_volume-enough torch 3 224 224 (run_and_show torch (codes "Hello World")) values h tall,
  )
