-- ===== src/Inference/Copy.antt =====
-- The copying loops: what they give for an input that is large enough.
use apache_thrift_benchmarki.Prelude.{
  ℕ, zero, suc, ◌+◌, ◌≤◌, ◌≡◌, refl, sym, ap, ◌∙◌, arith, List, [], ◌∷◌, ◌++◌, map, Option, some,
  get_elem?, replicate, length, take, length-append,
}
use mathlib.Core.Path.{ap₂}
use mathlib.Core.List.{append_assoc}
use apache_thrift_benchmarki.Prelude.Lists.{set, length-replicate}
use apache_thrift_benchmarki.Inference.{Torch, copy_from, copy_row, copy_plane, copy, ones}

module _ {A : Type 0} where
  pub get_elem?-length :
      (pre : List A) (x : A) (rest : List A) → get_elem? (pre ++ x ∷ rest) (length pre) ≡ some x
  get_elem?-length [] x rest = refl
  get_elem?-length (y ∷ pre) x rest = get_elem?-length pre x rest

  pub set-length :
      (pre : List A) (x v : A) (rest : List A)
      → set (pre ++ x ∷ rest) (length pre) v ≡ pre ++ v ∷ rest
  set-length [] x v rest = refl
  set-length (y ∷ pre) x v rest = ap (◌∷◌ y) (set-length pre x v rest)

  pub append_snoc :
      (pre : List A) (x : A) (rest : List A) → (pre ++ x ∷ []) ++ rest ≡ pre ++ x ∷ rest
  append_snoc pre x rest = append_assoc pre (x ∷ []) rest

  pub length-snoc : (pre : List A) (x : A) → length (pre ++ x ∷ []) ≡ length pre + 1
  length-snoc pre x = length-append pre (x ∷ [])

module _ {A B : Type 0} (f : A → B → Option B) (g : A → B) where
  -- `f` succeeds at every place of `dst`, with what `g` says.
  abbrev pub Gives : List A → List B → Type 0
  Gives src [] = Unit {0}
  Gives [] (b ∷ dst) = ⊥
  Gives (a ∷ src) (b ∷ dst) = (f a b ≡ some (g a)) × Gives src dst

  abbrev pub AllGive : B → List A → Type 0
  AllGive b [] = Unit {0}
  AllGive b (a ∷ src) = (f a b ≡ some (g a)) × AllGive b src

  copy_from-step :
      (rounds i : ℕ) (src : List A) (dst : List B) {a : A} {b b' : B}
      → get_elem? src i ≡ some a
      → get_elem? dst i ≡ some b
      → f a b ≡ some b'
      → copy_from f (suc rounds) i src dst ≡ copy_from f rounds (i + 1) src (set dst i b')
  unfolding copy_from
  copy_from-step rounds i src dst at_src at_dst e = rw (at_src, copy_from) (rw at_dst (rw e))

  copy_from-rest :
      (before : List A) (src : List A) (ready : List B) (dst : List B)
      → length before ≡ length ready
      → Gives src dst
      → copy_from f (length dst) (length ready) (before ++ src) (ready ++ dst)
        ≡ some (ready ++ map g (take (length dst) src))
  unfolding copy_from
  copy_from-rest before src ready [] same ok = refl
  copy_from-rest before [] ready (b ∷ dst) same ok = absurd ok
  copy_from-rest before (a ∷ src) ready (b ∷ dst) same ok =
      copy_from-step (length dst) (length ready) (before ++ a ∷ src) (ready ++ b ∷ dst)
        (ap (get_elem? (before ++ a ∷ src)) (sym same) ∙ get_elem?-length before a src)
        (get_elem?-length ready b dst) ok.0
      ∙ ap (copy_from f (length dst) (length ready + 1) (before ++ a ∷ src))
          (set-length ready b (g a) dst ∙ sym (append_snoc ready (g a) dst))
      ∙ ap₂ (λ i s. copy_from f (length dst) i s ((ready ++ g a ∷ []) ++ dst))
          (sym (length-snoc ready (g a))) (sym (append_snoc before a src))
      ∙ copy_from-rest (before ++ a ∷ []) src (ready ++ g a ∷ []) dst
          (omega (arith, length-snoc before a, length-snoc ready (g a))) ok.1
      ∙ ap some (append_snoc ready (g a) (map g (take (length dst) src)))

  -- A loop over all of `dst` maps `g` over as much of `src`.
  pub copy_from-map :
      (src : List A) (dst : List B)
      → Gives src dst
      → copy_from f (length dst) 0 src dst ≡ some (map g (take (length dst) src))
  copy_from-map src dst ok = copy_from-rest [] src [] dst refl ok

  -- Places that all hold `b`.
  pub Gives-replicate :
      (n : ℕ) (src : List A) (b : B)
      → n ≤ length src
      → AllGive b (take n src)
      → Gives src (replicate n b)
  Gives-replicate zero src b h all = tt
  Gives-replicate (suc n) [] b h all = absurd (omega arith)
  Gives-replicate (suc n) (a ∷ src) b h all = (all.0, Gives-replicate n src b (omega arith) all.1)

  pub copy_from-replicate :
      (n : ℕ) (src : List A) (b : B)
      → n ≤ length src
      → AllGive b (take n src)
      → copy_from f n 0 src (replicate n b) ≡ some (map g (take n src))
  copy_from-replicate n src b h all =
      let e = copy_from-map src (replicate n b) (Gives-replicate n src b h all) in
      rw (length-replicate n b) at e

module _ (torch : Torch) where
  open torch use {Double, Float, to_float, one}

  -- The input holds at least `depth` planes of `height` rows of `width` numbers.
  abbrev pub Wide : ℕ → List (List Double) → Type 0
  Wide width [] = Unit {0}
  Wide width (row ∷ rows) = (width ≤ length row) × Wide width rows

  abbrev pub Tall : ℕ → ℕ → List (List (List Double)) → Type 0
  Tall height width [] = Unit {0}
  Tall height width (plane ∷ planes) =
      (height ≤ length plane) × Wide width (take height plane) × Tall height width planes

  -- The numbers within the given size, as floats.
  abbrev pub cut_row : ℕ → List Double → List Float
  cut_row width row = map to_float (take width row)

  abbrev pub cut_plane : ℕ → ℕ → List (List Double) → List (List Float)
  cut_plane height width plane = map (cut_row width) (take height plane)

  abbrev pub cut : ℕ → ℕ → ℕ → List (List (List Double)) → List (List (List Float))
  cut depth height width values = map (cut_plane height width) (take depth values)

  cast_all : (row : List Double) → AllGive (λ v (_ : Float). some (to_float v)) to_float one row
  cast_all [] = tt
  cast_all (v ∷ row) = (refl, cast_all row)

  copy_row-cut :
      (width : ℕ) (row : List Double)
      → width ≤ length row
      → copy_row torch width row (replicate width one) ≡ some (cut_row width row)
  unfolding copy_row
  copy_row-cut width row h =
      copy_from-replicate (λ v _. some (to_float v)) to_float width row one h
        (cast_all (take width row))

  rows_give :
      (width : ℕ) (rows : List (List Double))
      → Wide width rows
      → AllGive (copy_row torch width) (cut_row width) (replicate width one) rows
  rows_give width [] wide = tt
  rows_give width (row ∷ rows) wide = (copy_row-cut width row wide.0, rows_give width rows wide.1)

  copy_plane-cut :
      (height width : ℕ) (plane : List (List Double))
      → height ≤ length plane
      → Wide width (take height plane)
      → copy_plane torch height width plane (replicate height (replicate width one))
        ≡ some (cut_plane height width plane)
  unfolding copy_plane
  copy_plane-cut height width plane h wide =
      copy_from-replicate (copy_row torch width) (cut_row width) height plane (replicate width one)
        h (rows_give width (take height plane) wide)

  planes_give :
      (height width : ℕ) (planes : List (List (List Double)))
      → Tall height width planes
      → AllGive
          (copy_plane torch height width)
          (cut_plane height width)
          (replicate height (replicate width one))
          planes
  planes_give height width [] tall = tt
  planes_give height width (plane ∷ planes) tall =
      (copy_plane-cut height width plane tall.0 tall.1, planes_give height width planes tall.2)

  -- A large enough input is copied without a step outside a vector, and what lies beyond the size is
  -- left out.
  pub copy-cut :
      (depth height width : ℕ) (values : List (List (List Double)))
      → depth ≤ length values
      → Tall height width (take depth values)
      → copy torch depth height width values (ones torch depth height width)
        ≡ some (cut depth height width values)
  unfolding copy
  copy-cut depth height width values h tall =
      copy_from-replicate (copy_plane torch height width) (cut_plane height width) depth values
        (replicate height (replicate width one)) h
        (planes_give height width (take depth values) tall)
