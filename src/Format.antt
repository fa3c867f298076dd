-- ===== src/Format.antt =====
-- The number formatting and parsing of the C++ standard library that the unique id services use:
-- `std::hex` on a stream and `std::to_string` (unsigned values of at most 64 bits), `std::stoul` to
-- base 16, `std::string(n, '0') + s` and `s.erase(0, n)`, `std::string(const char *)`.
-- A text is the list of its bytes. The texts that reach `stoul` hold hexadecimal digits alone, so
-- its leading blanks, sign and `0x` are left out.
pub mod Width
pub mod RoundTrip
use Prim.Native.Char.{code}
use Prim.Native.String.{String}
use apache_thrift_benchmarki.Prelude.{
  ℕ, zero, suc, ◌+◌, ◌-◌, ◌*◌, ◌/◌, ◌%◌, ◌^◌, ◌≡◌, refl, Bool, true, false, ◌&&◌, List, [], ◌∷◌,
  ◌++◌, ltb, leb, ◌==◌, if◌then◌else◌, Option, none, some, length, drop, replicate,
}
use apache_thrift_benchmarki.Prelude.Int.{ℤ, pos, negsuc}

abbrev pub Text : Type 0
Text = List ℕ

abbrev pub codes : String → Text
codes String.[] = []
codes (String.◌∷◌ c s) = code c ∷ codes s

-- A digit below 16 as a character, in lower case.
unfoldable pub digit_char : ℕ → ℕ
digit_char d = if ltb d 10 then b'0' + d else 87 + d

-- The last `k` digits of a number to the base `b`, the high ones first.
unfoldable pub digits : ℕ → ℕ → ℕ → Text
digits b zero n = []
digits b (suc k) n = digits b k (n / b) ++ digit_char (n % b) ∷ []

-- Without the leading zeros, though with one digit at least.
unfoldable pub strip_from : ℕ → Text → Text
strip_from c [] = c ∷ []
strip_from c (e ∷ s) = if c == b'0' then strip_from e s else c ∷ e ∷ s

unfoldable pub strip : Text → Text
unfolding strip_from
strip [] = []
strip (c ∷ s) = strip_from c s

-- `stream << std::hex << n`
unfoldable pub to_hex : ℕ → Text
to_hex n = strip (digits 16 16 n)

-- `std::to_string(n)`
unfoldable pub to_string : ℕ → Text
to_string n = strip (digits 10 20 n)

-- `std::string(count, '0') + s`
abbrev pub zeros_before : ℕ → Text → Text
zeros_before count s = replicate count b'0' ++ s

-- `s.erase(0, count)`
abbrev pub erase_front : ℕ → Text → Text
erase_front count s = drop count s

-- `std::string(p)`: the bytes before the first zero byte.
unfoldable pub c_string : Text → Text
c_string [] = []
c_string (zero ∷ s) = []
c_string (suc c ∷ s) = suc c ∷ c_string s

unfoldable pub digit_value : ℕ → Option ℕ
digit_value c =
    if leb b'0' c && leb c b'9'
    then some (c - b'0')
    else if leb b'a' c && leb c b'f'
    then some (c - 87)
    else if leb b'A' c && leb c b'F'
    then some (c - 55)
    else none

-- The number to the base `b` that the longest prefix of digits stands for, with `n` read before it.
unfoldable pub scan : ℕ → ℕ → Text → ℕ
scan b n [] = n
scan b n (c ∷ s) = elim (digit_value c) [ none ↦ n | some d ↦ scan b (n * b + d) s ]

pub data Parsed : Type 0 where
  number : ℕ → Parsed
  invalid_argument out_of_range : Parsed

-- `std::stoul(s, nullptr, 16)`
unfoldable pub stoul : Text → Parsed
stoul [] = invalid_argument
stoul (c ∷ s) = elim (digit_value c) [
  | none ↦ invalid_argument
  | some _ ↦ let n = scan 16 0 (c ∷ s) in if ltb n (2 ^ 64) then number n else out_of_range
]

-- `==` of two strings.
unfoldable pub same_text : Text → Text → Bool
same_text [] [] = true
same_text (c ∷ s) (d ∷ t) = c == d && same_text s t
same_text _ _ = false

-- `std::ostream << n` of an int64_t
unfoldable pub show_ℤ : ℤ → Text
show_ℤ (pos n) = to_string n
show_ℤ (negsuc n) = b'-' ∷ to_string (suc n)
