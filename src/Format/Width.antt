-- ===== src/Format/Width.antt =====
-- The common way the services bring a text to a fixed width: erase the front of a longer one, put
-- zeros before a shorter one. Of a number in hexadecimal this leaves its last digits, leading zeros
-- included.
use Prim.Native.Nat.add
use apache_thrift_benchmarki.Prelude.{
  ℕ, zero, suc, ◌+◌, ◌-◌, ◌/◌, ◌%◌, ◌≤◌, ◌<◌, ◌≡◌, refl, sym, ap, ◌∙◌, ◌⊎◌, inl, inr, [], ◌∷◌, ◌++◌,
  arith, ltb, ◌==◌, if◌then◌else◌, Bool-cases, ==_iff, lt→ltb, ltb→lt, length, drop, replicate,
  length-append,
}
use mathlib.Core.List.{append_assoc, append-nil}
use apache_thrift_benchmarki.Format.{
  Text, digits, digit_char, strip, to_hex, zeros_before, erase_front,
}

-- `if (s.size() > k) s.erase(0, s.size() - k); else s = std::string(k - s.size(), '0') + s;`
unfoldable pub fit : ℕ → Text → Text
fit k s = if ltb k (length s) then erase_front (length s - k) s else zeros_before (k - length s) s

pub length-digits : (b k n : ℕ) → length (digits b k n) ≡ k
unfolding digits
length-digits b zero n = refl
length-digits b (suc k) n =
    omega (
      arith,
      length-append (digits b k (n / b)) (digit_char (n % b) ∷ []),
      length-digits b k (n / b),
    )

fit_long : (k : ℕ) (s : Text) → k < length s → fit k s ≡ drop (length s - k) s
unfolding fit
fit_long k s h = rw (lt→ltb k (length s) h)

fit_short : (k : ℕ) (s : Text) → length s ≤ k → fit k s ≡ replicate (k - length s) b'0' ++ s
unfolding fit
fit_short k s h = elim (Bool-cases (ltb k (length s))) [
  | inl long ↦ absurd (omega (arith, ltb→lt k (length s) long))
  | inr short ↦ rw short
]

-- The digits above the last `k`.
high : ℕ → ℕ → ℕ → ℕ → Text
high b m zero n = digits b m n
high b m (suc k) n = high b m k (n / b)

digits-add : (b m k n : ℕ) → digits b (k + m) n ≡ high b m k n ++ digits b k n
unfolding high digits
digits-add b m zero n = rw (add.zero m) (sym (append-nil (digits b m n)))
digits-add b m (suc k) n =
    rw (add.suc k m, digits-add b m k (n / b))
      (append_assoc (high b m k (n / b)) (digits b k (n / b)) (digit_char (n % b) ∷ []))

drop-append : (s t : Text) → drop (length s) (s ++ t) ≡ t
drop-append [] t = refl
drop-append (c ∷ s) t = drop-append s t

drop-rest : (c : ℕ) (s t : Text) → drop (suc (length (s ++ t)) - length t) (c ∷ (s ++ t)) ≡ t
drop-rest c s t =
    let e : suc (length (s ++ t)) - length t ≡ suc (length s) = omega (arith, length-append s t) in
    rw e (drop-append s t)

sub_self : (n : ℕ) → n - n ≡ 0
sub_self n = omega arith

suc-sub : (n m : ℕ) → m ≤ n → suc n - m ≡ suc (n - m)
suc-sub n m h = omega arith

pub strip-cases :
    (c : ℕ) (s : Text) → (strip (c ∷ s) ≡ c ∷ s) ⊎ ((c ≡ b'0') × (strip (c ∷ s) ≡ strip s))
unfolding strip
strip-cases c [] = inl refl
strip-cases c (e ∷ s) = elim (Bool-cases (c == b'0')) [
  | inl zeroed ↦ inr ((==_iff c b'0').0 zeroed, rw zeroed)
  | inr kept ↦ inl (rw kept)
]

pub length-strip-le : (s : Text) → length (strip s) ≤ length s
unfolding strip
length-strip-le [] = omega arith
length-strip-le (c ∷ s) = elim (strip-cases c s) [
  | inl kept ↦ rw kept (omega arith)
  | inr (_, dropped) ↦ rw dropped (omega (arith, length-strip-le s))
]

-- The zeros that `strip` drops come back.
zeros_before-strip : (s : Text) → zeros_before (length s - length (strip s)) (strip s) ≡ s
unfolding strip
zeros_before-strip [] = refl
zeros_before-strip (c ∷ s) = elim (strip-cases c s) [
  | inl kept ↦ rw (kept, sub_self (suc (length s)))
  | inr (zeroed, dropped) ↦
      rw (dropped, suc-sub _ _ (length-strip-le s), zeros_before-strip s, zeroed)
]

-- Whatever stands in front, the last characters are what is left.
fit-strip : (hi lo : Text) → fit (length lo) (strip (hi ++ lo)) ≡ lo
fit-strip [] lo = fit_short (length lo) (strip lo) (length-strip-le lo) ∙ zeros_before-strip lo
fit-strip (c ∷ hi) lo = elim (strip-cases c (hi ++ lo)) [
  | inl kept ↦ rw kept (
      fit_long (length lo) (c ∷ (hi ++ lo)) (omega (arith, length-append hi lo))
      ∙ drop-rest c hi lo)
  | inr (_, dropped) ↦ rw dropped (fit-strip hi lo)
]

-- A number printed in hexadecimal and brought to k characters, k at most 16, shows exactly its last
-- k hexadecimal digits, leading zeros included.
pub fit-to_hex : (k m n : ℕ) → k + m ≡ 16 → fit k (to_hex n) ≡ digits 16 k n
unfolding to_hex
fit-to_hex k m n h =
    ap (λ w. fit k (strip (digits 16 w n))) (sym h)
    ∙ ap (λ s. fit k (strip s)) (digits-add 16 m k n)
    ∙ ap (λ w. fit w (strip (high 16 m k n ++ digits 16 k n))) (sym (length-digits 16 k n))
    ∙ fit-strip (high 16 m k n) (digits 16 k n)
