-- ===== src/Inference/Short.antt =====
-- What a call to `compute_list` gives for an input that is too small.
use apache_thrift_benchmarki.Prelude.{
  ℕ, zero, suc, ◌+◌, ◌≤◌, ◌<◌, ◌≡◌, refl, ap, ◌∙◌, arith, ℕ_discrete, Option-cases, inl, inr, List,
  [], ◌∷◌, Option, none, some, get_elem?, length,
}
use apache_thrift_benchmarki.Prelude.Lists.{set}
use apache_thrift_benchmarki.Format.{codes}
use apache_thrift_benchmarki.Inference.{
  Torch, Result, run_model, run_and_show, undefined, copy_from, copy_row, copy_plane, copy, ones,
  compute_volume, threaded_compute_list, nonblocking_compute_list, thread_pool_compute_list,
}

module _ {A : Type 0} where
  get_elem?-bound : (s : List A) (i : ℕ) {x : A} → get_elem? s i ≡ some x → i < length s
  get_elem?-bound [] i e = cc
  get_elem?-bound (y ∷ s) zero e = omega arith
  get_elem?-bound (y ∷ s) (suc i) e = omega (arith, get_elem?-bound s i e)

module _ {A B : Type 0} (f : A → B → Option B) where
  -- One round after which the others fail.
  copy_from-later :
      (rounds i : ℕ) (src : List A) (dst : List B) {a : A}
      → get_elem? src i ≡ some a
      → ((dst' : List B) → copy_from f rounds (i + 1) src dst' ≡ none)
      → copy_from f (suc rounds) i src dst ≡ none
  unfolding copy_from
  copy_from-later rounds i src dst {a} e later =
      rw (e, copy_from)
        (elim (Option-cases (get_elem? dst i)) [
          | inl e' ↦ rw e' refl
          | inr (b, e') ↦ rw e' (elim (Option-cases (f a b)) [
            | inl e'' ↦ rw e'' refl
            | inr (b', e'') ↦ rw e'' (later (set dst i b'))
          ])
        ])

  -- A loop that goes on beyond its source.
  copy_from-beyond :
      (rounds i : ℕ) (src : List A) (dst : List B)
      → i ≤ length src
      → length src < i + rounds
      → copy_from f rounds i src dst ≡ none
  unfolding copy_from
  copy_from-beyond zero i src dst h h' = absurd (omega arith)
  copy_from-beyond (suc rounds) i src dst h h' = elim (Option-cases (get_elem? src i)) [
    | inl e ↦ rw (e, copy_from) refl
    | inr (a, e) ↦ copy_from-later rounds i src dst e (λ dst'.
        copy_from-beyond rounds (i + 1) src dst' (omega (arith, get_elem?-bound src i e))
          (omega arith))
  ]

  -- A loop that meets an element at which `f` fails.
  copy_from-fails :
      (rounds i j : ℕ) (src : List A) (dst : List B) {a : A}
      → i ≤ j
      → j < i + rounds
      → get_elem? src j ≡ some a
      → ((b : B) → f a b ≡ none)
      → copy_from f rounds i src dst ≡ none
  unfolding copy_from
  copy_from-fails zero i j src dst h h' e fails = absurd (omega arith)
  copy_from-fails (suc rounds) i j src dst {a} h h' e fails = elim (ℕ_discrete i j) [
    | yes same ↦
        rw (ap (get_elem? src) same ∙ e, copy_from)
          (elim (Option-cases (get_elem? dst i)) [
            | inl e' ↦ rw e' refl
            | inr (b, e') ↦ rw e' (rw (fails b) refl)
          ])
    | no other ↦ elim (Option-cases (get_elem? src i)) [
      | inl e' ↦ rw (e', copy_from) refl
      | inr (a', e') ↦
          copy_from-later rounds i src dst e'
            (λ dst'. copy_from-fails rounds (i + 1) j src dst' (omega arith) (omega arith) e fails)
    ]
  ]

-- A place within the size at which the input has no number: too few planes, a plane with too few rows,
-- or a row with too few numbers.
pub data Short {A : Type 0} (depth height width : ℕ) (values : List (List (List A))) : Type 0 where
  planes : length values < depth → Short depth height width values
  rows :
      (i : ℕ) {plane : List (List A)}
      → i < depth
      → get_elem? values i ≡ some plane
      → length plane < height
      → Short depth height width values
  columns :
      (i j : ℕ) {plane : List (List A)} {row : List A}
      → i < depth
      → get_elem? values i ≡ some plane
      → j < height
      → get_elem? plane j ≡ some row
      → length row < width
      → Short depth height width values

module _ (torch : Torch) where
  open torch use {Double, Float, to_float, Tensor}

  copy_row-beyond :
      (width : ℕ) (row : List Double) (dst : List Float)
      → length row < width
      → copy_row torch width row dst ≡ none
  unfolding copy_row
  copy_row-beyond width row dst h =
      copy_from-beyond (λ v _. some (to_float v)) width 0 row dst (omega arith) (omega arith)

  copy_plane-beyond :
      (height width : ℕ) (plane : List (List Double)) (dst : List (List Float))
      → length plane < height
      → copy_plane torch height width plane dst ≡ none
  unfolding copy_plane
  copy_plane-beyond height width plane dst h =
      copy_from-beyond (copy_row torch width) height 0 plane dst (omega arith) (omega arith)

  copy_plane-narrow :
      (height width : ℕ) (plane : List (List Double)) (dst : List (List Float)) (j : ℕ)
      {row : List Double}
      → j < height
      → get_elem? plane j ≡ some row
      → length row < width
      → copy_plane torch height width plane dst ≡ none
  unfolding copy_plane
  copy_plane-narrow height width plane dst j {row} h e h' =
      copy_from-fails (copy_row torch width) height 0 j plane dst (omega arith) (omega arith) e
        (λ c. copy_row-beyond width row c h')

  copy-Short :
      (depth height width : ℕ) (values : List (List (List Double))) (dst : List (List (List Float)))
      → Short depth height width values
      → copy torch depth height width values dst ≡ none
  unfolding copy
  copy-Short depth height width values dst (planes h) =
      copy_from-beyond (copy_plane torch height width) depth 0 values dst (omega arith)
        (omega arith)
  copy-Short depth height width values dst (rows i {plane} h e h') =
      copy_from-fails (copy_plane torch height width) depth 0 i values dst (omega arith)
        (omega arith) e (λ b. copy_plane-beyond height width plane b h')
  copy-Short depth height width values dst (columns i j {plane} {row} h e h' e' h'') =
      copy_from-fails (copy_plane torch height width) depth 0 i values dst (omega arith)
        (omega arith) e (λ b. copy_plane-narrow height width plane b j h' e' h'')

  pub compute_volume-Short :
      (depth height width : ℕ) (finish : Option Tensor → Result)
      (values : List (List (List Double)))
      → Short depth height width values
      → compute_volume torch depth height width finish values ≡ undefined
  unfolding compute_volume
  compute_volume-Short depth height width finish values short =
      rw
        (copy-Short depth height width values (ones torch depth height width) short, compute_volume)
        refl

  -- On an input with too few planes, rows or numbers within 3 by 224 by 224 every server reads
  -- outside a vector: the sizes of the list that a client sends are not checked.
  pub compute_list-Short :
      (values : List (List (List Double)))
      → Short 3 224 224 values
      → (threaded_compute_list torch values ≡ undefined)
        × (nonblocking_compute_list torch values ≡ undefined)
        × (thread_pool_compute_list torch values ≡ undefined)
  unfolding threaded_compute_list nonblocking_compute_list thread_pool_compute_list
  compute_list-Short values short = (
    compute_volume-Short 3 224 224 (run_model torch (codes "processed")) values short,
    compute_volume-Short 3 224 224 (run_and_show torch (codes "Hello World")) values short,
    compute_volume-Short 3 224 224 (run_and_show torch (codes "Hello World")) values short,
  )
