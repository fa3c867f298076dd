-- ===== src/Rpc/Struct/Fields.antt =====
-- A generated struct reads any sequence of fields: what it knows goes to its member, the last value of
-- a member counts, and everything else is skipped.
use apache_thrift_benchmarki.Prelude.{
  ℕ, zero, suc, ◌<◌, ◌≡◌, refl, Bool, true, false, if◌then◌else◌, List, [], ◌∷◌, arith,
}
use apache_thrift_benchmarki.Prelude.Int.{ℤ, pos}
use apache_thrift_benchmarki.Format.{Text}
use apache_thrift_benchmarki.Rpc.Wire.{
  M, ◌>>◌, return, returned, Protocol, i32, i64, double, text, TType, same_type, t_stop, t_i32,
  t_i64, t_double, t_string, Token, token, Val, i32_val, i64_val, double_val, text_val, struct_val,
  list_val, Fields, no_field, field, type_of, encode, encode_fields, struct_begin, struct_end,
  field_begin, field_end,
}
use apache_thrift_benchmarki.Rpc.Wire.Ends.{
  Ends, Carries, Lacks, chain, return_ends, write-Lacks, stop-Lacks,
}
use apache_thrift_benchmarki.Rpc.Struct.{
  skip_field, if_type, member, read_fields, read_struct, write_field, write_struct,
}

value_type : {D : Type 0} (v : Val D) → same_type (type_of v) t_stop ≡ false
value_type (i32_val n) = refl
value_type (i64_val n) = refl
value_type (double_val n) = refl
value_type (text_val n) = refl
value_type (struct_val n) = refl
value_type (list_val ty n) = refl

module _ {D S : Type 0} where
  -- The member after a value has come for it.
  abbrev pub on_i32 : Val D → (ℤ → S) → S → S
  on_i32 (i32_val n) assign this = assign n
  on_i32 _ assign this = this

  abbrev pub on_i64 : Val D → (ℤ → S) → S → S
  on_i64 (i64_val n) assign this = assign n
  on_i64 _ assign this = this

  abbrev pub on_double : Val D → (D → S) → S → S
  on_double (double_val x) assign this = assign x
  on_double _ assign this = this

  abbrev pub on_text : Val D → (Text → S) → S → S
  on_text (text_val s) assign this = assign s
  on_text _ assign this = this

  abbrev pub on_struct : Val D → (Fields D → S) → S → S
  on_struct (struct_val fs) assign this = assign fs
  on_struct _ assign this = this

  abbrev pub absorb : (S → ℤ → Val D → S) → S → Fields D → S
  absorb one this no_field = this
  absorb one this (field fid v fs) = absorb one (one this fid v) fs

abbrev pub Every : {D : Type 0} → (ℤ → Val D → Type 0) → Fields D → Type 0
Every Good no_field = Unit {0}
Every Good (field fid v fs) = Good fid v × Every Good fs

abbrev pub size : {D : Type 0} → Fields D → ℕ
size no_field = 0
size (field _ _ fs) = suc (size fs)

-- The computation reads this value.
abbrev pub Takes : {W D A : Type 0} → (List (Token D) → W → Type 0) → Val D → M W A → A → Type 0
Takes {D = D} H v m a = (ts : List (Token D)) → Ends (H (encode v ts)) m (returned a) (H ts)

module _ {W D S : Type 0} {prot : Protocol W D} {H : List (Token D) → W → Type 0}
    (carries : Carries prot H) where
  open carries use {reads, skips}

  pub skip_field-Takes : (v : Val D) (this : S) → Takes H v (skip_field prot (type_of v) this) this
  unfolding skip_field
  skip_field-Takes v this ts = chain _ (skips v ts) (return_ends this)

  pub member_i32 :
      (v : Val D) (assign : ℤ → S) (this : S)
      → Takes H v (member prot t_i32 i32 assign (type_of v) this) (on_i32 v assign this)
  unfolding member if_type encode
  member_i32 (i32_val n) assign this ts = chain _ (reads i32 n ts) (return_ends _)
  member_i32 v assign this ts = skip_field-Takes v this ts

  pub member_i64 :
      (v : Val D) (assign : ℤ → S) (this : S)
      → Takes H v (member prot t_i64 i64 assign (type_of v) this) (on_i64 v assign this)
  unfolding member if_type encode
  member_i64 (i64_val n) assign this ts = chain _ (reads i64 n ts) (return_ends _)
  member_i64 v assign this ts = skip_field-Takes v this ts

  pub member_double :
      (v : Val D) (assign : D → S) (this : S)
      → Takes H v (member prot t_double double assign (type_of v) this) (on_double v assign this)
  unfolding member if_type encode
  member_double (double_val x) assign this ts = chain _ (reads double x ts) (return_ends _)
  member_double v assign this ts = skip_field-Takes v this ts

  pub member_text :
      (v : Val D) (assign : Text → S) (this : S)
      → Takes H v (member prot t_string text assign (type_of v) this) (on_text v assign this)
  unfolding member if_type encode
  member_text (text_val s) assign this ts = chain _ (reads text s ts) (return_ends _)
  member_text v assign this ts = skip_field-Takes v this ts

-- A case of a switch by the number of the field.
module _ {W D S : Type 0} {H : List (Token D) → W → Type 0} (v : Val D) where
  pub case_Takes :
      (here : Bool) {m n : M W S} {a b : S}
      → Takes H v m a
      → Takes H v n b
      → Takes H v (if here then m else n) (if here then a else b)
  case_Takes true first second = first
  case_Takes false first second = second

-- What `switch` does with a field is what `one` says, for the fields with `Good`.
module _ {W D S : Type 0} {prot : Protocol W D} {H : List (Token D) → W → Type 0}
    (carries : Carries prot H) {Good : ℤ → Val D → Type 0} (one : S → ℤ → Val D → S)
    (switch : ℤ → TType → S → M W S)
    (takes : (this : S) (fid : ℤ) (v : Val D)
      → Good fid v
      → Takes H v (switch fid (type_of v) this) (one this fid v)) where
  open carries use {reads}

  read_fields-absorb :
      (fuel : ℕ) (fs : Fields D) (this : S) (ts : List (Token D))
      → Every Good fs
      → size fs < fuel
      → Ends
          (H (encode_fields fs ts))
          (read_fields prot switch fuel this)
          (returned (absorb one this fs))
          (H ts)
  unfolding read_fields encode_fields
  read_fields-absorb zero fs this ts good h = absurd (omega arith)
  read_fields-absorb (suc fuel) no_field this ts good h =
      chain _ (reads field_begin (t_stop, pos 0) ts) (return_ends this)
  read_fields-absorb (suc fuel) (field fid v fs) this ts good h =
      chain _ (reads field_begin (type_of v, fid) _) (
        rw (value_type v) (
          chain _ (takes this fid v good.0 _) (
            chain _ (reads field_end tt _)
              (read_fields-absorb fuel fs (one this fid v) ts good.1 (omega arith)))))

  -- A struct is read from any fields, with fuel for one round more than there are fields.
  pub read_struct-absorb :
      (fuel : ℕ) (fs : Fields D) (this : S)
      → Every Good fs
      → size fs < fuel
      → Takes H (struct_val fs) (read_struct prot switch fuel this) (absorb one this fs)
  unfolding read_struct encode
  read_struct-absorb fuel fs this good h ts = chain _ (reads struct_begin tt _) (
      chain _ (read_fields-absorb fuel fs this _ good h)
        (chain _ (reads struct_end tt ts) (return_ends _)))

-- The computation writes this value.
abbrev pub Puts : {W D : Type 0} → (List (Token D) → W → Type 0) → Val D → M W (Unit {0}) → Type 0
Puts {D = D} H v m =
    (all ts : List (Token D)) → Ends (Lacks H all (encode v ts)) m (returned tt) (Lacks H all ts)

abbrev pub PutsFields :
    {W D : Type 0} → (List (Token D) → W → Type 0) → Fields D → M W (Unit {0}) → Type 0
PutsFields {D = D} H fs m =
    (all ts : List (Token D))
    → Ends (Lacks H all (encode_fields fs ts)) m (returned tt)
        (Lacks H all (token field_begin (t_stop, pos 0) ∷ ts))

module _ {W D : Type 0} {prot : Protocol W D} {H : List (Token D) → W → Type 0}
    (carries : Carries prot H) where
  pub write_i32-Puts : (n : ℤ) → Puts H (i32_val n) (prot.write i32 [] n)
  unfolding encode
  write_i32-Puts n all ts = write-Lacks carries i32 [] n ts

  pub write_i64-Puts : (n : ℤ) → Puts H (i64_val n) (prot.write i64 [] n)
  unfolding encode
  write_i64-Puts n all ts = write-Lacks carries i64 [] n ts

  pub write_double-Puts : (x : D) → Puts H (double_val x) (prot.write double [] x)
  unfolding encode
  write_double-Puts x all ts = write-Lacks carries double [] x ts

  pub write_text-Puts : (s : Text) → Puts H (text_val s) (prot.write text [] s)
  unfolding encode
  write_text-Puts s all ts = write-Lacks carries text [] s ts

  pub return-PutsFields : PutsFields H no_field (return tt)
  unfolding encode_fields
  return-PutsFields all ts = return_ends tt

  pub write_field-last :
      {body : M W (Unit {0})} (name : Text) (fid : ℤ) (v : Val D)
      → Puts H v body
      → PutsFields H (field fid v no_field) (write_field prot name (type_of v) fid body)
  unfolding write_field encode_fields
  write_field-last name fid v puts all ts =
      chain _ (write-Lacks carries field_begin name _ _)
        (chain _ (puts all _) (write-Lacks carries field_end [] tt _))

  pub write_field-more :
      {body more : M W (Unit {0})} (name : Text) (fid : ℤ) (v : Val D) (fs : Fields D)
      → Puts H v body
      → PutsFields H fs more
      → PutsFields H (field fid v fs) (write_field prot name (type_of v) fid body >> more)
  unfolding write_field encode_fields
  write_field-more name fid v fs puts puts_more all ts =
      chain _
        (chain _ (write-Lacks carries field_begin name _ _)
          (chain _ (puts all _) (write-Lacks carries field_end [] tt _)))
        (puts_more all ts)

  pub write_struct-Puts :
      {body : M W (Unit {0})} (name : Text) (fs : Fields D)
      → PutsFields H fs body
      → Puts H (struct_val fs) (write_struct prot name body)
  unfolding write_struct encode
  write_struct-Puts name fs puts all ts = chain _ (write-Lacks carries struct_begin name tt _) (
      chain _ (puts all _)
        (chain _ (stop-Lacks carries _) (write-Lacks carries struct_end [] tt ts)))
