-- ===== src/Rpc/Results/Laws.antt =====
-- Reading and writing the result structs.
use apache_thrift_benchmarki.Prelude.{ℕ, ◌<◌, List, if◌then◌else◌, Bool-cases, inl, inr}
use apache_thrift_benchmarki.Prelude.Int.{ℤ, pos, eq_ℤ}
use apache_thrift_benchmarki.Format.{Text, codes}
use apache_thrift_benchmarki.Rpc.Wire.{
  Protocol, Token, Val, text_val, struct_val, Fields, no_field, field, type_of, encode,
}
use apache_thrift_benchmarki.Rpc.Wire.Ends.{Carries}
use apache_thrift_benchmarki.Rpc.Struct.Fields.{
  Takes, Puts, case_Takes, on_text, absorb, Every, size, skip_field-Takes, member_text,
  read_struct-absorb, return-PutsFields, write_field-last, write_struct-Puts, write_text-Puts,
}
use apache_thrift_benchmarki.Rpc.Struct.{skip_field}
use apache_thrift_benchmarki.Rpc.Results.{
  TextResult, with_success, text_result_switch, read_text_result, write_text_result,
  read_void_result, write_void_result,
}

abbrev pub Any : {D : Type 0} → ℤ → Val D → Type 0
Any fid v = Unit {0}

abbrev pub every_any : {D : Type 0} (fs : Fields D) → Every Any fs
every_any no_field = tt
every_any (field fid v fs) = (tt, every_any fs)

-- The last text for field 0 is the result; other fields and types are passed over.
abbrev pub text_result_after : {D : Type 0} → TextResult → ℤ → Val D → TextResult
text_result_after this fid v = if eq_ℤ fid (pos 0) then on_text v with_success this else this

abbrev pub text_result_fields : {D : Type 0} → TextResult → Fields D
text_result_fields this =
    if this.isset_success then field (pos 0) (text_val this.success) no_field else no_field

module _ {W D : Type 0} {prot : Protocol W D} {H : List (Token D) → W → Type 0}
    (carries : Carries prot H) where
  text_result_switch-after :
      (this : TextResult) (fid : ℤ) (v : Val D)
      → Any fid v
      → Takes H v (text_result_switch prot fid (type_of v) this) (text_result_after this fid v)
  unfolding text_result_switch
  text_result_switch-after this fid v any =
      case_Takes v (eq_ℤ fid (pos 0)) (member_text carries v with_success this)
        (skip_field-Takes carries v this)

  pub read_text_result-absorb :
      (fuel : ℕ) (fs : Fields D) (this : TextResult)
      → size fs < fuel
      → Takes H (struct_val fs) (read_text_result prot fuel this) (absorb text_result_after this fs)
  unfolding read_text_result
  read_text_result-absorb fuel fs this h =
      read_struct-absorb carries text_result_after (text_result_switch prot)
        text_result_switch-after fuel fs this (every_any fs) h

  pub write_text_result-Puts :
      (name : Text) (this : TextResult)
      → Puts H (struct_val (text_result_fields this)) (write_text_result prot name this)
  unfolding write_text_result encode
  write_text_result-Puts name this = elim (Bool-cases this.isset_success) [
    | inl set ↦ rw set (
        write_struct-Puts carries name (field (pos 0) (text_val this.success) no_field) (
          write_field-last carries (codes "success") (pos 0) (text_val this.success)
            (write_text-Puts carries this.success)))
    | inr unset ↦ rw unset (write_struct-Puts carries name no_field (return-PutsFields carries))
  ]

  pub read_void_result-any :
      (fuel : ℕ) (fs : Fields D)
      → size fs < fuel
      → Takes H (struct_val fs) (read_void_result prot fuel) tt
  unfolding read_void_result
  read_void_result-any fuel fs h ts =
      read_struct-absorb carries (λ this fid v. tt) (λ fid ftype this. skip_field prot ftype this)
        (λ this fid v any. skip_field-Takes carries v tt) fuel fs tt (every_any fs) h ts

  pub write_void_result-Puts :
      (name : Text) → Puts H (struct_val no_field) (write_void_result prot name)
  unfolding write_void_result
  write_void_result-Puts name = write_struct-Puts carries name no_field (return-PutsFields carries)
