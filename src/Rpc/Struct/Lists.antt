-- ===== src/Rpc/Struct/Lists.antt =====
-- Members that are lists or structs themselves.
use apache_thrift_benchmarki.Prelude.{
  ℕ, suc, ◌%◌, ◌^◌, ◌<◌, ◌≡◌, refl, ap, List, [], ◌∷◌, arith, length,
}
use apache_thrift_benchmarki.Rpc.Wire.{
  M, ◌>>=◌, return, returned, Protocol, TType, t_struct, Token, Val, struct_val, list_val, Fields,
  Elements, no_element, element, count, type_of, encode, encode_elements, list_begin, list_end,
}
use apache_thrift_benchmarki.Rpc.Wire.Ends.{Ends, Carries, Lacks, chain, return_ends, write-Lacks}
use apache_thrift_benchmarki.Rpc.Struct.{
  if_type, read_elements, read_list, write_elements, write_list,
}
use apache_thrift_benchmarki.Rpc.Struct.Fields.{on_struct, Takes, Puts, skip_field-Takes}

module _ {D A : Type 0} (value : A → Val D) where
  abbrev pub elements_of : List A → Elements D
  elements_of [] = no_element
  elements_of (x ∷ xs) = element (value x) (elements_of xs)

  count-elements_of : (xs : List A) → count (elements_of xs) ≡ length xs
  count-elements_of [] = refl
  count-elements_of (x ∷ xs) = ap suc (count-elements_of xs)

small_mod : (n : ℕ) → n < 2 ^ 32 → n % 2 ^ 32 ≡ n
small_mod n h = omega arith

abbrev pub Each : {A : Type 0} → (A → Type 0) → List A → Type 0
Each Good [] = Unit {0}
Each Good (x ∷ xs) = Good x × Each Good xs

module _ {W D A : Type 0} {prot : Protocol W D} {H : List (Token D) → W → Type 0}
    (carries : Carries prot H) (value : A → Val D) where
  open carries use {reads}

  read_elements-all :
      {one : M W A}
      → ((x : A) → Takes H (value x) one x)
      → (xs : List A) (ts : List (Token D))
      → Ends
          (H (encode_elements (elements_of value xs) ts))
          (read_elements prot one (count (elements_of value xs)))
          (returned xs)
          (H ts)
  unfolding read_elements encode_elements
  read_elements-all takes [] ts = return_ends []
  read_elements-all takes (x ∷ xs) ts =
      chain _ (takes x _) (chain _ (read_elements-all takes xs ts) (return_ends (x ∷ xs)))

  pub read_list-Takes :
      {one : M W A} (etype : TType)
      → ((x : A) → Takes H (value x) one x)
      → (xs : List A) → Takes H (list_val etype (elements_of value xs)) (read_list prot one) xs
  unfolding read_list encode
  read_list-Takes etype takes xs ts =
      chain _ (reads list_begin (etype, _) _)
        (chain _ (read_elements-all takes xs _) (chain _ (reads list_end tt ts) (return_ends xs)))

  write_elements-all :
      {one : A → M W (Unit {0})} {Good : A → Type 0}
      → ((x : A) → Good x → Puts H (value x) (one x))
      → (xs : List A) (all ts : List (Token D)) → Each Good xs
      → Ends
          (Lacks H all (encode_elements (elements_of value xs) ts))
          (write_elements prot one xs)
          (returned tt)
          (Lacks H all ts)
  unfolding write_elements encode_elements
  write_elements-all puts [] all ts good = return_ends tt
  write_elements-all puts (x ∷ xs) all ts good =
      chain _ (puts x good.0 all _) (write_elements-all puts xs all ts good.1)

  pub write_list-Puts :
      {one : A → M W (Unit {0})} {Good : A → Type 0} (etype : TType)
      → ((x : A) → Good x → Puts H (value x) (one x))
      → (xs : List A) → length xs < 2 ^ 32
      → Each Good xs
      → Puts H (list_val etype (elements_of value xs)) (write_list prot etype one xs)
  unfolding write_list encode
  write_list-Puts etype puts xs small good all ts = rw (count-elements_of value xs) (
      rw (small_mod (length xs) small) (
        chain _ (write-Lacks carries list_begin [] (etype, length xs) _) (
          chain _ (write_elements-all puts xs all _ good) (write-Lacks carries list_end [] tt ts))))

module _ {W D S T : Type 0} {prot : Protocol W D} {H : List (Token D) → W → Type 0}
    (carries : Carries prot H) where
  -- A member that is a struct, read by `body`.
  pub member_struct :
      {body : M W T} (v : Val D) (result : Fields D → T) (assign : T → S) (this : S)
      → ((fs : Fields D) → v ≡ struct_val fs → Takes H (struct_val fs) body (result fs))
      → Takes H v
          (if_type prot t_struct (body >>= λ x. return (assign x)) (type_of v) this)
          (on_struct v (λ fs. assign (result fs)) this)
  unfolding if_type encode
  member_struct (struct_val fs) result assign this takes ts =
      chain _ (takes fs refl ts) (return_ends _)
  member_struct v result assign this takes ts = skip_field-Takes carries v this ts
