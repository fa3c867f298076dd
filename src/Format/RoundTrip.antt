-- ===== src/Format/RoundTrip.antt =====
-- Reading digits back: `scan` of the digits of a number, whatever the base, and what `std::stoul`
-- makes of a text of hexadecimal digits.
use native.Mathlib.Nat.{mod-lt, mod-eq_of_lt, add-mul-mod_self_left, div-add-mod, pow-suc, pow-zero}
use apache_thrift_benchmarki.Prelude.{
  ℕ, zero, suc, ◌+◌, ◌*◌, ◌/◌, ◌%◌, ◌^◌, ◌≤◌, ◌<◌, ◌≡◌, refl, sym, ap, ◌∙◌, inl, inr, [], ◌∷◌, ◌++◌,
  some, arith, length, lt→ltb,
}
use apache_thrift_benchmarki.Format.{
  Text, digits, digit_char, strip, to_string, digit_value, scan, stoul, number,
}
use apache_thrift_benchmarki.Format.Width.{strip-cases}

-- Every character is a digit.
abbrev pub IsHex : Text → Type 0
IsHex [] = Unit {0}
IsHex (c ∷ s) = ((d : ℕ) × (digit_value c ≡ some d)) × IsHex s

digit_value-digit_char : (d : ℕ) → d < 16 → digit_value (digit_char d) ≡ some d
unfolding digit_value digit_char
digit_value-digit_char d h = ground arith

pub IsHex-append : (s t : Text) → IsHex s → IsHex t → IsHex (s ++ t)
IsHex-append [] t hs ht = ht
IsHex-append (c ∷ s) t hs ht = (hs.0, IsHex-append s t hs.1 ht)

scan_digit : (b n c : ℕ) {d : ℕ} → digit_value c ≡ some d → scan b n (c ∷ []) ≡ n * b + d
unfolding scan
scan_digit b n c h = rw (h, scan)

mod-base : (b n : ℕ) → 0 < b → b ≤ 16 → n % b < 16
mod-base b n pos small = omega (arith, mod-lt n pos)

pub IsHex-digits : (b k n : ℕ) → 0 < b → b ≤ 16 → IsHex (digits b k n)
unfolding digits
IsHex-digits b zero n pos small = tt
IsHex-digits b (suc k) n pos small =
    IsHex-append (digits b k (n / b)) (digit_char (n % b) ∷ []) (IsHex-digits b k (n / b) pos small)
      ((n % b, digit_value-digit_char (n % b) (mod-base b n pos small)), tt)

pub scan-append : (b n : ℕ) (s t : Text) → IsHex s → scan b n (s ++ t) ≡ scan b (scan b n s) t
unfolding scan
scan-append b n [] t h = refl
scan-append b n (c ∷ s) t h = rw (h.0.1, scan) (scan-append b (n * b + h.0.0) s t h.1)

row_lt : (r c h w : ℕ) → r < h → c < w → r * w + c < h * w
row_lt r c h w p q = grind arith

mod-mul : (b x n : ℕ) → 0 < b → 0 < x → n / b % x * b + n % b ≡ n % (x * b)
mod-mul b x n hb hx = sym (
    ap (λ t. t % (x * b)) split
    ∙ add-mul-mod_self_left (n / b % x * b + n % b) (x * b) (n / b / x)
    ∙ mod-eq_of_lt (row_lt _ _ x b (mod-lt (n / b) hx) (mod-lt n hb)))
  where
    split : n ≡ n / b % x * b + n % b + x * b * (n / b / x)
    split = omega (arith, div-add-mod n b, ap (λ (t : ℕ). t * b) (div-add-mod (n / b) x))

pow_pos : (b k : ℕ) → 0 < b → 0 < b ^ k
pow_pos b zero h = rw (pow-zero b) (omega arith)
pow_pos b (suc k) h = grind (arith, pow_pos b k h, pow-suc)

shift_digits : (s a x y b r : ℕ) → s ≡ a * x + y → s * b + r ≡ a * (x * b) + (y * b + r)
shift_digits s a x y b r h = rw h (omega arith)

-- What was read before moves up by `k` digits.
pub scan-digits : (b k a n : ℕ) → 0 < b → b ≤ 16 → scan b a (digits b k n) ≡ a * b ^ k + n % b ^ k
unfolding digits scan
scan-digits b zero a n pos small = let one : b ^ 0 ≡ 1 = pow-zero b in rw one (omega arith)
scan-digits b (suc k) a n pos small =
    scan-append b a (digits b k (n / b)) (digit_char (n % b) ∷ [])
      (IsHex-digits b k (n / b) pos small)
    ∙ scan_digit b _ (digit_char (n % b)) (digit_value-digit_char (n % b) (mod-base b n pos small))
    ∙ shift_digits _ a (b ^ k) _ b (n % b) (scan-digits b k a (n / b) pos small)
    ∙ rw (pow-suc b k, mod-mul b (b ^ k) n pos (pow_pos b k pos))

scan-strip : (b : ℕ) (s : Text) → scan b 0 (strip s) ≡ scan b 0 s
unfolding scan strip digit_value
scan-strip b [] = refl
scan-strip b (c ∷ s) = elim (strip-cases c s) [
  | inl kept ↦ rw kept
  | inr (zeroed, dropped) ↦
      rw (dropped, scan-strip b s, zeroed) (ap (λ x. scan b x s) (omega arith))
]

-- `stoul` succeeds on digits whose value fits 64 bits.
pub stoul_of_hex :
    (s : Text) → 0 < length s → IsHex s → scan 16 0 s < 2 ^ 64 → stoul s ≡ number (scan 16 0 s)
unfolding stoul
stoul_of_hex [] some_digit h fits = absurd (omega arith)
stoul_of_hex (c ∷ s) some_digit h fits = rw (h.0.1, stoul) (rw (lt→ltb _ _ fits))

-- Numbers of at most twenty digits print differently.
pub to_string_injective : (n m : ℕ) → n < 10 ^ 20 → m < 10 ^ 20 → to_string n ≡ to_string m → n ≡ m
unfolding to_string
to_string_injective n m hn hm e = sym (value n hn) ∙ ap (scan 10 0) e ∙ value m hm
  where
    value : (x : ℕ) → x < 10 ^ 20 → scan 10 0 (strip (digits 10 20 x)) ≡ x
    value x h =
        scan-strip 10 (digits 10 20 x)
        ∙ scan-digits 10 20 0 x (omega arith) (omega arith)
        ∙ omega arith
