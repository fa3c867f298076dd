-- ===== src/Tests/Inference.antt =====
-- Runs of MLInfer's `compute_list` with a small stand-in for Torch.
use apache_thrift_benchmarki.Prelude.{
  ℕ, zero, suc, ◌≤◌, ◌≡◌, refl, arith, List, [], ◌∷◌, Option, none, some, replicate, length, take,
  map, ap, ◌∙◌,
}
use apache_thrift_benchmarki.Prelude.Lists.{length-replicate}
use apache_thrift_benchmarki.Format.{codes}
use apache_thrift_benchmarki.Inference.{
  Torch, loaded, run_model, returned, thrown, undefined, copy_from, copy_row, copy_plane, copy,
  store_row, store_plane, store, compute_volume, threaded_compute_list, nonblocking_compute_list,
  thread_pool_compute_list,
}
use apache_thrift_benchmarki.Inference.Copy.{Wide, Tall, cut_row, cut_plane, cut}
use apache_thrift_benchmarki.Prelude.Int.{pos}
use apache_thrift_benchmarki.Inference.Values.{
  ones_tensor, threaded_computed_value, nonblocking_computed_value, thread_pool_computed_value,
}
use apache_thrift_benchmarki.Inference.Values.Ones.{
  as_result, EndsAsOrSliceThrew, computed_value-compute_list,
}
use apache_thrift_benchmarki.Inference.Answer.{compute_list_lem}
use apache_thrift_benchmarki.Inference.Short.{rows, compute_list-Short}

abbrev pub takes : ℕ → List ℕ → Option (Unit {0})
takes zero tensor = none
takes (suc n) tensor = some tt

-- A model that is a number, or 0 where it is not loaded, and that throws if it is 0.
abbrev pub small : Option ℕ → Torch
small file = record {
  Double = ℕ;
  Float = ℕ;
  Module = ℕ;
  to_float = λ v. v;
  one = 1;
  unset = 0;
  empty_module = 0;
  load = file;
  Tensor = Unit {0};
  forward = takes;
  sliced = λ output. some (codes "0.5");
}

abbrev two_planes : List (List (List ℕ))
two_planes = ((1 ∷ 2 ∷ 9 ∷ []) ∷ []) ∷ ((3 ∷ 4 ∷ []) ∷ (8 ∷ []) ∷ []) ∷ []

copied :
    copy (small none) 2 1 2 two_planes (replicate 2 (replicate 1 (replicate 2 1)))
    ≡ some (((1 ∷ 2 ∷ []) ∷ []) ∷ ((3 ∷ 4 ∷ []) ∷ []) ∷ [])
unfolding copy copy_plane copy_row copy_from
copied = refl

tensor_filled :
    store {F = ℕ} (((1 ∷ 2 ∷ []) ∷ []) ∷ ((3 ∷ 4 ∷ []) ∷ []) ∷ []) 0 (0 ∷ 0 ∷ 0 ∷ 0 ∷ [])
    ≡ some (4, 1 ∷ 2 ∷ 3 ∷ 4 ∷ [])
unfolding store store_plane store_row
tensor_filled = refl

answered :
    compute_volume
      (small (some 1))
      2
      1
      2
      (λ output. run_model (small (some 1)) (codes "processed") output)
      two_planes
    ≡ returned (codes "processed")
unfolding compute_volume copy copy_plane copy_row copy_from store store_plane store_row
answered = refl

-- The file of the model is missing: the call goes on with an empty module.
not_loaded :
    compute_volume
      (small none)
      2
      1
      2
      (λ output. run_model (small (some 1)) (codes "processed") output)
      two_planes
    ≡ thrown
unfolding compute_volume copy copy_plane copy_row copy_from store store_plane store_row
not_loaded = refl

abbrev pub row : List ℕ
row = replicate 224 7

abbrev pub image : List (List (List ℕ))
image = replicate 3 (replicate 224 row)

rows-Wide : (n m : ℕ) → n ≤ m → Wide (small (some 1)) 224 (take n (replicate m row))
rows-Wide zero m h = tt
rows-Wide (suc n) zero h = absurd (omega arith)
rows-Wide (suc n) (suc m) h =
    (omega (arith, length-replicate {A = ℕ} 224 7), rows-Wide n m (omega arith))

pub rows_long : 224 ≤ length (replicate 224 row)
rows_long = omega (arith, length-replicate 224 row)

pub image-Tall : Tall (small (some 1)) 224 224 (take 3 image)
image-Tall = (
  rows_long,
  rows-Wide 224 224 (omega arith),
  (rows_long, rows-Wide 224 224 (omega arith), (rows_long, rows-Wide 224 224 (omega arith), tt)),
)

compute_list_lem_example :
    (threaded_compute_list (small (some 1)) image ≡ returned (codes "processed"))
    × (nonblocking_compute_list (small (some 1)) image ≡ returned (codes "Hello World"))
    × (thread_pool_compute_list (small (some 1)) image ≡ returned (codes "Hello World"))
compute_list_lem_example = compute_list_lem (small (some 1)) image (omega arith) image-Tall

-- The second plane has no rows.
compute_list-Short_example :
    (threaded_compute_list (small (some 1)) (two_planes) ≡ undefined)
    × (nonblocking_compute_list (small (some 1)) two_planes ≡ undefined)
    × (thread_pool_compute_list (small (some 1)) two_planes ≡ undefined)
compute_list-Short_example =
    compute_list-Short (small (some 1)) two_planes (rows 1 (omega arith) refl (omega arith))

map-replicate :
    {A B : Type 0} (f : A → B) (n : ℕ) (a : A) → map f (replicate n a) ≡ replicate n (f a)
map-replicate f zero a = refl
map-replicate f (suc n) a = ap (λ s. f a ∷ s) (map-replicate f n a)

take-replicate : {A : Type 0} (n : ℕ) (a : A) → take n (replicate n a) ≡ replicate n a
take-replicate zero a = refl
take-replicate (suc n) a = ap (λ s. a ∷ s) (take-replicate n a)

cut_row-replicate :
    (torch : Torch) (w : ℕ) (v : torch.Double)
    → cut_row torch w (replicate w v) ≡ replicate w (torch.to_float v)
cut_row-replicate torch w v = rw (take-replicate w v) (map-replicate torch.to_float w v)

cut_plane-replicate :
    (torch : Torch) (h w : ℕ) (v : torch.Double)
    → cut_plane torch h w (replicate h (replicate w v))
      ≡ replicate h (replicate w (torch.to_float v))
cut_plane-replicate torch h w v = rw (take-replicate h (replicate w v)) (
    map-replicate (cut_row torch w) h (replicate w v)
    ∙ ap (replicate h) (cut_row-replicate torch w v))

cut-replicate :
    (torch : Torch) (d h w : ℕ) (v : torch.Double)
    → cut torch d h w (replicate d (replicate h (replicate w v)))
      ≡ replicate d (replicate h (replicate w (torch.to_float v)))
cut-replicate torch d h w v = rw (take-replicate d (replicate h (replicate w v))) (
    map-replicate (cut_plane torch h w) d (replicate h (replicate w v))
    ∙ ap (replicate d) (cut_plane-replicate torch h w v))

-- Its output cannot be sliced.
abbrev seven : Torch
seven = record (small (some 1)) { one = 7; sliced = λ output. none }

computed_value-compute_list_example :
    EndsAsOrSliceThrew seven
      (codes "processed")
      (seven.forward (loaded seven) (ones_tensor seven 3 224 224))
      (threaded_compute_list seven image)
      (threaded_computed_value seven (pos 4) (pos 5)).1
    × (nonblocking_compute_list seven image
        ≡ as_result (codes "Hello World") (nonblocking_computed_value seven (pos 4) (pos 5)).1)
    × (thread_pool_compute_list seven image
        ≡ as_result (codes "Hello World") (thread_pool_computed_value seven (pos 4) (pos 5)).1)
computed_value-compute_list_example =
    computed_value-compute_list seven (pos 4) (pos 5) image (omega arith) image-Tall
      (cut-replicate seven 3 224 224 7)
