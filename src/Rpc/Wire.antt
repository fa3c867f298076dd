-- ===== src/Rpc/Wire.antt =====
-- What the generated code calls of Thrift: `TProtocol`, its `TTransport`, `TApplicationException` and
-- `TProcessorEventHandler`. They are no code of this repository: a protocol is a parameter, a record of
-- its operations on some type of states, with what the code relies on in `Carries`.
--
-- An operation may throw; that a loop runs out of its fuel is `endless`. The numbers of bytes that the
-- operations return are left out, since they only reach an event handler.
pub mod Ends
use apache_thrift_benchmarki.Prelude.{
  ℕ, suc, ◌≡◌, Bool, List, [], ◌∷◌, ◌++◌, Option, none, some, ◌⊎◌, inl, inr, ◌==◌,
}
use apache_thrift_benchmarki.Prelude.Int.{ℤ, pos}
use apache_thrift_benchmarki.Format.{Text}

pub data TType : Type 0 where
  t_stop t_bool t_byte t_double t_i16 t_i32 t_i64 t_string t_struct t_map t_set t_list : TType

-- Thrift's own numbers for the types.
abbrev pub type_code : TType → ℕ
type_code t_stop = 0
type_code t_bool = 2
type_code t_byte = 3
type_code t_double = 4
type_code t_i16 = 6
type_code t_i32 = 8
type_code t_i64 = 10
type_code t_string = 11
type_code t_struct = 12
type_code t_map = 13
type_code t_set = 14
type_code t_list = 15

abbrev pub same_type : TType → TType → Bool
same_type a b = type_code a == type_code b

pub data TMessageType : Type 0 where
  t_call t_reply t_exception t_oneway : TMessageType

-- `TApplicationException` with its type and message, `TProtocolException` with its type,
-- `TTransportException`, and any other `std::exception`.
pub data Exception : Type 0 where
  application : ℕ → Text → Exception
  protocol : ℕ → Exception
  transport : Text → Exception
  other : Text → Exception

-- TApplicationException::TApplicationExceptionType
abbrev pub unknown : ℕ
unknown = 0

abbrev pub unknown_method : ℕ
unknown_method = 1

abbrev pub bad_sequence_id : ℕ
bad_sequence_id = 4

abbrev pub missing_result : ℕ
missing_result = 5

-- TProtocolException::INVALID_DATA
abbrev pub invalid_data : ℕ
invalid_data = 1

-- The parts of a message that have a value, each with an operation that writes it and one that reads it.
pub data Part : Type 0 where
  message_begin message_end struct_begin struct_end field_begin field_end : Part
  list_begin list_end i32 i64 double text exception : Part

-- What an operation writes or reads. Field and struct names are written by some protocols alone, and no
-- caller uses those that are read; `exception` stands for the struct that `TApplicationException`
-- writes and reads.
abbrev pub Value : Type 0 → Part → Type 0
Value D message_begin = Text × TMessageType × ℤ
Value D field_begin = TType × ℤ
Value D list_begin = TType × ℕ
Value D i32 = ℤ
Value D i64 = ℤ
Value D double = D
Value D text = Text
Value D exception = ℕ × Text
Value D _ = Unit {0}

pub data Outcome (A : Type 0) : Type 0 where
  returned : A → Outcome A
  thrown : Exception → Outcome A
  endless : Outcome A

abbrev pub M : Type 0 → Type 0 → Type 0
M W A = W → Outcome A × W

-- What follows is reached where the computation returned.
abbrev pub proceed : {W A B : Type 0} → (A → M W B) → Outcome A × W → Outcome B × W
proceed f (returned a, w) = f a w
proceed f (thrown e, w) = (thrown e, w)
proceed f (endless, w) = (endless, w)

infixl 5 ◌>>=◌ ◌>>◌
unfoldable pub ◌>>=◌ : {W A B : Type 0} → M W A → (A → M W B) → M W B
◌>>=◌ m f w = proceed f (m w)

abbrev pub ◌>>◌ : {W B : Type 0} → M W (Unit {0}) → M W B → M W B
m >> k = m >>= λ _. k

unfoldable pub return : {W A : Type 0} → A → M W A
return a w = (returned a, w)

unfoldable pub throw : {W A : Type 0} → Exception → M W A
throw e w = (thrown e, w)

unfoldable pub out_of_fuel : {W A : Type 0} → M W A
out_of_fuel w = (endless, w)

abbrev pub caught : {W A : Type 0} → Outcome A × W → Outcome (A ⊎ Exception) × W
caught (returned a, w) = (returned (inl a), w)
caught (thrown e, w) = (returned (inr e), w)
caught (endless, w) = (endless, w)

-- `try { … } catch (const std::exception &e)`
unfoldable pub try_catch : {W A : Type 0} → M W A → M W (A ⊎ Exception)
try_catch m w = caught (m w)

abbrev pub cleaned : {W A : Type 0} → M W (Unit {0}) → Outcome A × W → Outcome A × W
cleaned cleanup (returned a, w) = (cleanup >> return a) w
cleaned cleanup (thrown e, w) = (cleanup >> throw e) w
cleaned cleanup (endless, w) = (endless, w)

-- What follows the end of a scope, however it ends.
unfoldable pub finally : {W A : Type 0} → M W (Unit {0}) → M W A → M W A
finally cleanup m w = cleaned cleanup (m w)

-- `TProtocol` and its transport. `write` also takes the name of a struct or a field, and the empty text
-- elsewhere; `what` is `e.what()`.
pub record Protocol (W D : Type 0) : Type 0 where
  pub write : (part : Part) → Text → Value D part → M W (Unit {0})
  pub write_field_stop : M W (Unit {0})
  pub read : (part : Part) → M W (Value D part)
  pub skip : TType → M W (Unit {0})
  pub read_end : M W (Unit {0})
  pub write_end : M W (Unit {0})
  pub flush : M W (Unit {0})
  pub what : Exception → Text

-- A part with its value, as it stands on the wire.
pub data Token (D : Type 0) : Type 0 where
  token : (part : Part) → Value D part → Token D

-- The values that the structs of this repository hold.
mutual
  pub data Val (D : Type 0) : Type 0 where
    i32_val i64_val : ℤ → Val D
    double_val : D → Val D
    text_val : Text → Val D
    struct_val : Fields D → Val D
    list_val : TType → Elements D → Val D

  pub data Fields (D : Type 0) : Type 0 where
    no_field : Fields D
    field : ℤ → Val D → Fields D → Fields D

  pub data Elements (D : Type 0) : Type 0 where
    no_element : Elements D
    element : Val D → Elements D → Elements D

abbrev pub type_of : {D : Type 0} → Val D → TType
type_of (i32_val _) = t_i32
type_of (i64_val _) = t_i64
type_of (double_val _) = t_double
type_of (text_val _) = t_string
type_of (struct_val _) = t_struct
type_of (list_val _ _) = t_list

abbrev pub count : {D : Type 0} → Elements D → ℕ
count no_element = 0
count (element _ es) = suc (count es)

-- A value on the wire, before what follows it.
unfoldable mutual
  pub encode : {D : Type 0} → Val D → List (Token D) → List (Token D)
  encode (i32_val n) ts = token i32 n ∷ ts
  encode (i64_val n) ts = token i64 n ∷ ts
  encode (double_val x) ts = token double x ∷ ts
  encode (text_val s) ts = token text s ∷ ts
  encode (struct_val fs) ts = token struct_begin tt ∷ encode_fields fs (token struct_end tt ∷ ts)
  encode (list_val ty es) ts =
      token list_begin (ty, count es) ∷ encode_elements es (token list_end tt ∷ ts)

  pub encode_fields : {D : Type 0} → Fields D → List (Token D) → List (Token D)
  encode_fields no_field ts = token field_begin (t_stop, pos 0) ∷ ts
  encode_fields (field fid v fs) ts =
      token field_begin (type_of v, fid) ∷ encode v (token field_end tt ∷ encode_fields fs ts)

  pub encode_elements : {D : Type 0} → Elements D → List (Token D) → List (Token D)
  encode_elements no_element ts = ts
  encode_elements (element v es) ts = encode v (encode_elements es ts)
