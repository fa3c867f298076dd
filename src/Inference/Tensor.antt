-- ===== src/Inference/Tensor.antt =====
-- The loop that fills the tensor: one value after another, and never outside its memory.
use Prim.Native.Nat.add
use apache_thrift_benchmarki.Prelude.{
  ℕ, zero, suc, ◌+◌, ◌≤◌, ◌≡◌, refl, sym, ap, ◌∙◌, arith, List, [], ◌∷◌, ◌++◌, Option, some, length,
  drop, length-append, length-drop,
}
use mathlib.Core.Path.{ap₂}
use mathlib.Core.List.{append_assoc, append-nil}
use apache_thrift_benchmarki.Inference.{store_row, store_plane, store}
use apache_thrift_benchmarki.Inference.Copy.{get_elem?-length, set-length, append_snoc, length-snoc}

module _ {F : Type 0} where
  -- All values, row by row and plane by plane.
  abbrev pub flat : List (List F) → List F
  flat [] = []
  flat (row ∷ rows) = row ++ flat rows

  abbrev pub flat_planes : List (List (List F)) → List F
  flat_planes [] = []
  flat_planes (plane ∷ planes) = flat plane ++ flat_planes planes

  drop_nil : (m : ℕ) → drop {A = F} m [] ≡ []
  drop_nil zero = refl
  drop_nil (suc m) = refl

  -- A part stored behind `pre`.
  abbrev stored : List F → List F → List F → Option (ℕ × List F)
  stored part pre rest = some (length (pre ++ part), (pre ++ part) ++ drop (length part) rest)

  -- What is stored goes behind `pre`, over the front of `rest`.
  store_row-front :
      (row pre rest : List F)
      → length row ≤ length rest
      → store_row row (length pre) (pre ++ rest) ≡ stored row pre rest
  unfolding store_row
  store_row-front [] pre rest h = rw (append-nil pre)
  store_row-front (k ∷ row) pre [] h = absurd (omega arith)
  store_row-front (k ∷ row) pre (x ∷ rest) h =
      rw (get_elem?-length pre x rest, store_row)
        (rw (set-length pre x k rest) (
          ap₂ (store_row row) (sym (length-snoc pre k)) (sym (append_snoc pre k rest))
          ∙ store_row-front row (pre ++ k ∷ []) rest (omega arith)
          ∙ ap (λ s. some (length s, s ++ drop (length row) rest)) (append_snoc pre k row)))

  drop-add : (n m : ℕ) (s : List F) → drop m (drop n s) ≡ drop (n + m) s
  drop-add zero m s = rw (add.zero m)
  drop-add (suc n) m [] = rw (add.suc n m) (drop_nil m)
  drop-add (suc n) m (x ∷ s) = rw (add.suc n m) (drop-add n m s)

  -- Storing one part and then the others is storing both.
  behind_both :
      (part others pre rest : List F)
      → stored others (pre ++ part) (drop (length part) rest) ≡ stored (part ++ others) pre rest
  behind_both part others pre rest =
      rw (append_assoc pre part others)
        (rw (drop-add (length part) (length others) rest) (rw (length-append part others)))

  store_plane-front :
      (plane : List (List F)) (pre rest : List F)
      → length (flat plane) ≤ length rest
      → store_plane plane (length pre) (pre ++ rest) ≡ stored (flat plane) pre rest
  unfolding store_plane
  store_plane-front [] pre rest h = rw (append-nil pre)
  store_plane-front (row ∷ plane) pre rest h =
      rw (store_row-front row pre rest (omega (arith, length-append row (flat plane))), store_plane)
        (store_plane-front plane (pre ++ row) (drop (length row) rest)
            (omega (arith, length-append row (flat plane), length-drop (length row) rest))
          ∙ behind_both row (flat plane) pre rest)

  store-front :
      (planes : List (List (List F))) (pre rest : List F)
      → length (flat_planes planes) ≤ length rest
      → store planes (length pre) (pre ++ rest) ≡ stored (flat_planes planes) pre rest
  unfolding store
  store-front [] pre rest h = rw (append-nil pre)
  store-front (plane ∷ planes) pre rest h =
      rw
        (
          store_plane-front plane pre rest
              (omega (arith, length-append (flat plane) (flat_planes planes))),
          store,
        )
        (store-front planes (pre ++ flat plane) (drop (length (flat plane)) rest) (
            omega (
              arith,
              length-append (flat plane) (flat_planes planes),
              length-drop (length (flat plane)) rest,
            ))
          ∙ behind_both (flat plane) (flat_planes planes) pre rest)

  drop_all : (s : List F) → drop (length s) s ≡ []
  drop_all [] = refl
  drop_all (x ∷ s) = drop_all s

  -- A memory of the right size is filled.
  pub store-flat :
      (planes : List (List (List F))) (memory : List F)
      → length memory ≡ length (flat_planes planes)
      → store planes 0 memory ≡ some (length (flat_planes planes), flat_planes planes)
  store-flat planes memory same =
      store-front planes [] memory (omega arith)
      ∙ rw (sym same) (rw (drop_all memory) (rw (append-nil (flat_planes planes))))
