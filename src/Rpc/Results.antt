-- ===== src/Rpc/Results.antt =====
-- The result structs of the generated services, `…_result` and `…_presult`: those with a text and those of
-- a call that returns nothing. The code repeats them for each method.
pub mod Laws
pub mod Calls
use apache_thrift_benchmarki.Prelude.{
  ℕ, Bool, true, false, List, [], Option, none, some, if◌then◌else◌,
}
use apache_thrift_benchmarki.Prelude.Int.{ℤ, pos, eq_ℤ}
use apache_thrift_benchmarki.Format.{Text, codes}
use apache_thrift_benchmarki.Rpc.Wire.{
  M, return, Protocol, Part, text, TType, t_string, ◌>>=◌, ◌>>◌,
}
use apache_thrift_benchmarki.Rpc.Struct.{skip_field, member, read_struct, write_field, write_struct}

-- The members `success` and `__isset.success`; in a `…_presult` the first is a pointer.
pub record TextResult : Type 0 where
  pub success : Text
  pub isset_success : Bool

abbrev pub empty_result : TextResult
empty_result = record { success = []; isset_success = false }

abbrev pub with_success : Text → TextResult
with_success s = record { success = s; isset_success = true }

abbrev pub text_success : TextResult → Option Text
text_success result = if result.isset_success then some result.success else none

module _ {W D : Type 0} (prot : Protocol W D) where
  unfoldable pub text_result_switch : ℤ → TType → TextResult → M W TextResult
  text_result_switch fid ftype this =
      if eq_ℤ fid (pos 0)
      then member prot t_string text with_success ftype this
      else skip_field prot ftype this

  unfoldable pub read_text_result : ℕ → TextResult → M W TextResult
  unfolding text_result_switch
  read_text_result fuel this = read_struct prot text_result_switch fuel this

  unfoldable pub write_text_result : Text → TextResult → M W (Unit {0})
  write_text_result name this = write_struct prot name (
      if this.isset_success
      then write_field prot (codes "success") t_string (pos 0) (prot.write text [] this.success)
      else return tt)

  unfoldable pub read_void_result : ℕ → M W (Unit {0})
  read_void_result fuel = read_struct prot (λ fid ftype this. skip_field prot ftype this) fuel tt

  unfoldable pub write_void_result : Text → M W (Unit {0})
  write_void_result name = write_struct prot name (return tt)
