-- ===== src/Rpc/Struct.antt =====
-- What the `read` and `write` of every generated struct have in common. The code repeats it in each; the
-- lines are those of DSBUniqueIDService/tthreadedserver/gen-cpp/UniqueID.cpp and, for lists, of
-- MLInfer/tthreaded/gen-cpp/Compute.cpp. The recursion trackers are left out: structs are nested two
-- deep at most, and Thrift's limit is 64.
pub mod Fields
pub mod Lists
use apache_thrift_benchmarki.Prelude.{ℕ, zero, suc, ◌%◌, ◌^◌, List, [], ◌∷◌, if◌then◌else◌, length}
use apache_thrift_benchmarki.Prelude.Int.{ℤ, pos}
use apache_thrift_benchmarki.Format.{Text}
use apache_thrift_benchmarki.Rpc.Wire.{
  M, ◌>>=◌, ◌>>◌, return, out_of_fuel, Protocol, Part, i32, i64, double, text, Value, TType, t_stop,
  same_type, struct_begin, struct_end, field_begin, field_end, list_begin, list_end,
}

module _ {W D : Type 0} (prot : Protocol W D) where
  open prot use {write, write_field_stop, read, skip}

  -- `skip(ftype)` in the default of a switch.
  unfoldable pub skip_field : {S : Type 0} → TType → S → M W S
  skip_field ftype this = do skip ftype; return this

  -- A case of the switch: a field of another type is skipped.
  unfoldable pub if_type : {S : Type 0} → TType → M W S → TType → S → M W S
  if_type wanted body ftype this = if same_type ftype wanted then body else skip_field ftype this

  -- A case that reads one value into a member.
  unfoldable pub member :
      {S : Type 0} → TType → (part : Part) → (Value D part → S) → TType → S → M W S
  unfolding if_type
  member wanted part assign ftype this =
      if_type wanted (do value ← read part; return (assign value)) ftype this

  -- The loop over the fields; `switch` is what a struct does with one.
  unfoldable pub read_fields : {S : Type 0} → (ℤ → TType → S → M W S) → ℕ → S → M W S
  read_fields switch zero this = out_of_fuel
  read_fields switch (suc fuel) this = do
    head ← read field_begin
    if same_type head.0 t_stop
        then return this
        else do this' ← switch head.1 head.0 this; read field_end; read_fields switch fuel this'

  unfoldable pub read_struct : {S : Type 0} → (ℤ → TType → S → M W S) → ℕ → S → M W S
  read_struct switch fuel this = do
    read struct_begin
    this' ← read_fields switch fuel this
    read struct_end
    return this'

  unfoldable pub write_field : Text → TType → ℤ → M W (Unit {0}) → M W (Unit {0})
  write_field name ftype fid body = do
    write field_begin name (ftype, fid)
    body
    write field_end [] tt

  unfoldable pub write_struct : Text → M W (Unit {0}) → M W (Unit {0})
  write_struct name body = do
    write struct_begin name tt
    body
    write_field_stop
    write struct_end [] tt

  unfoldable pub read_elements : {A : Type 0} → M W A → ℕ → M W (List A)
  read_elements one zero = return []
  read_elements one (suc n) = do x ← one; xs ← read_elements one n; return (x ∷ xs)

  -- The element type that `readListBegin` gives is not looked at.
  unfoldable pub read_list : {A : Type 0} → M W A → M W (List A)
  read_list one = do head ← read list_begin; xs ← read_elements one head.1; read list_end; return xs

  unfoldable pub write_elements : {A : Type 0} → (A → M W (Unit {0})) → List A → M W (Unit {0})
  write_elements one [] = return tt
  write_elements one (x ∷ xs) = do one x; write_elements one xs

  -- `static_cast<uint32_t>(xs.size())`
  unfoldable pub write_list : {A : Type 0} → TType → (A → M W (Unit {0})) → List A → M W (Unit {0})
  write_list etype one xs = do
    write list_begin [] (etype, length xs % 2 ^ 32)
    write_elements one xs
    write list_end [] tt
