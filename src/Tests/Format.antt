-- ===== src/Tests/Format.antt =====
-- The texts of numbers, and `fit`.
use apache_thrift_benchmarki.Prelude.{◌≡◌, refl}
use apache_thrift_benchmarki.Format.{
  codes, to_hex, to_string, strip, digits, digit_char, digit_value, scan, stoul, number,
  invalid_argument, out_of_range,
}
use apache_thrift_benchmarki.Format.Width.{fit}

to_hex_test : to_hex 0xbeef01 ≡ codes "beef01"
unfolding to_hex strip digits digit_char
to_hex_test = refl

to_hex_zero : to_hex 0 ≡ codes "0"
unfolding to_hex strip digits digit_char
to_hex_zero = refl

to_string_test : to_string 18446744073709551615 ≡ codes "18446744073709551615"
unfolding to_string strip digits digit_char
to_string_test = refl

stoul_test : stoul (codes "7fF") ≡ number 2047
unfolding stoul scan digit_value
stoul_test = refl

stoul_too_large : stoul (codes "10000000000000000") ≡ out_of_range
unfolding stoul scan digit_value
stoul_too_large = refl

stoul_no_digits : stoul (codes "ghost") ≡ invalid_argument
unfolding stoul scan digit_value
stoul_no_digits = refl

fit_longer : fit 3 (codes "12ab") ≡ codes "2ab"
unfolding fit
fit_longer = refl

fit_shorter : fit 3 (codes "a") ≡ codes "00a"
unfolding fit
fit_shorter = refl
