-- ===== src/TradeHistory/Numbers.antt =====
-- The numbers of the trade reports.
use apache_thrift_benchmarki.Prelude.{
  ℕ, zero, suc, ◌+◌, ◌*◌, ◌≤◌, ◌<◌, ◌≡◌, refl, sym, ap, ◌∙◌, arith, inl, inr, Bool-cases, Bool,
  ◌&&◌, List, [], ◌∷◌, map, none, some, leb, length,
}
use apache_thrift_benchmarki.Prelude.Int.{int_max}
use mathlib.Core.Path.{ap₂}
use mathlib.Core.Option.{some-injective}
use apache_thrift_benchmarki.Format.{Text}
use apache_thrift_benchmarki.TradeHistory.{
  TradeReport, TradeHistoryHandler, price_of, get_last_sale, sales,
}

-- `n` numbers from `k` on.
abbrev pub count_up : ℕ → ℕ → List ℕ
count_up k zero = []
count_up k (suc n) = k ∷ count_up (k + 1) n

get_last_sale-in_range :
    (symbol : Text) (con_id call_count : ℕ)
    → con_id * 10000 + call_count < int_max
    → get_last_sale symbol (record { con_id = con_id; call_count = call_count })
      ≡ some (
        record {
          seq_num = con_id * 10000 + (call_count + 1);
          symbol = symbol;
          price = (price_of symbol).0;
          size = (price_of symbol).1;
        },
        record { con_id = con_id; call_count = call_count + 1 },
      )
unfolding get_last_sale
get_last_sale-in_range symbol con_id call_count h = ground arith

no_more : (n : ℕ) → n ≡ n + 0
no_more n = omega arith

one_more : (n k : ℕ) → n + 1 + k ≡ n + suc k
one_more n k = omega arith

sum_assoc : (c n : ℕ) → c * 10000 + n + 1 ≡ c * 10000 + (n + 1)
sum_assoc c n = omega arith

next_number : (c n : ℕ) → c * 10000 + (n + 1) + 1 ≡ c * 10000 + n + 1 + 1
next_number c n = omega arith

-- A connection whose numbers stay within an int answers every call, with reports of the symbols
-- asked for that are numbered one after the other.
pub sales-numbers :
    (symbols : List Text) (con_id call_count : ℕ)
    → con_id * 10000 + call_count + length symbols ≤ int_max
    → (reports : List TradeReport) × (sales symbols
          (record { con_id = con_id; call_count = call_count })
        ≡ some (reports, record { con_id = con_id; call_count = call_count + length symbols }))
      × (map (λ report. report.seq_num) reports
          ≡ count_up (con_id * 10000 + call_count + 1) (length symbols))
      × (map (λ report. report.symbol) reports ≡ symbols)
unfolding sales
sales-numbers [] con_id call_count h = (
  [],
  ap (λ n. some ([], record { con_id = con_id; call_count = n })) (no_more call_count),
  refl,
  refl,
)
sales-numbers (symbol ∷ symbols) con_id call_count h =
    let (reports, e, numbers, symbols') =
      sales-numbers symbols con_id (call_count + 1) (omega (arith, h)) in
    (
      record {
        seq_num = con_id * 10000 + (call_count + 1);
        symbol = symbol;
        price = (price_of symbol).0;
        size = (price_of symbol).1;
      }
          ∷ reports,
      rw (get_last_sale-in_range symbol con_id call_count (omega (arith, h)), sales)
          (rw e (rw (one_more call_count (length symbols)) refl)),
      ap₂ ◌∷◌ (sym (sum_assoc con_id call_count))
          (numbers ∙ ap (λ k. count_up k (length symbols)) (next_number con_id call_count)),
      ap (◌∷◌ symbol) symbols',
    )

abbrev in_range : TradeHistoryHandler → Bool
in_range handler =
    leb (handler.call_count + 1) int_max
    && leb (handler.con_id * 10000 + (handler.call_count + 1)) int_max

none_is_not_some : {A : Type 0} {a : A} → none ≡ some a → ⊥
none_is_not_some e = cc

number_given :
    (symbol : Text) (handler : TradeHistoryHandler) {report : TradeReport}
    {after : TradeHistoryHandler}
    → get_last_sale symbol handler ≡ some (report, after)
    → report.seq_num ≡ handler.con_id * 10000 + (handler.call_count + 1)
unfolding get_last_sale
number_given symbol handler e = elim (Bool-cases (in_range handler)) [
  | inl within ↦ sym (ap (λ r. r.0.seq_num) (some-injective _ _ (rw within at e)))
  | inr beyond ↦ absurd (none_is_not_some (rw beyond at e))
]

apart :
    (a b i j : ℕ)
    → i < 10000
    → j < 10000
    → a * 10000 + (i + 1) ≡ b * 10000 + (j + 1)
    → (a ≡ b) × (i ≡ j)
apart a b i j h h' e = (omega (arith, h, h', e), omega (arith, h, h', e))

-- Two calls of get_last_sale that are each among the first 10000 of their connection give the same
-- number only if connection and call are the same.
pub seq_num-distinct :
    (symbol symbol' : Text) (first second : TradeHistoryHandler) {report report' : TradeReport}
    {after after' : TradeHistoryHandler}
    → first.call_count < 10000
    → second.call_count < 10000
    → get_last_sale symbol first ≡ some (report, after)
    → get_last_sale symbol' second ≡ some (report', after')
    → report.seq_num ≡ report'.seq_num
    → (first.con_id ≡ second.con_id) × (first.call_count ≡ second.call_count)
seq_num-distinct symbol symbol' first second h h' e e' same =
    apart first.con_id second.con_id first.call_count second.call_count h h'
      (sym (number_given symbol first e) ∙ same ∙ number_given symbol' second e')

same_number : (a i : ℕ) → a * 10000 + (10000 + i + 1) ≡ (a + 1) * 10000 + (i + 1)
same_number a i = omega arith

-- From its call 10001 on a connection gives, symbol by symbol, the reports of the next connection
-- with their numbers, as long as these fit an int.
pub seq_num-repeats :
    (a i : ℕ) (symbol : Text)
    → (a + 1) * 10000 + i + 1 ≤ int_max
    → (first second : TradeReport) × (handler handler' : TradeHistoryHandler) × (get_last_sale
          symbol
          (record { con_id = a; call_count = 10000 + i })
        ≡ some (first, handler))
      × (get_last_sale symbol (record { con_id = a + 1; call_count = i }) ≡ some (second, handler'))
      × (first ≡ second)
seq_num-repeats a i symbol h = (
  report (a * 10000 + (10000 + i + 1)),
  report ((a + 1) * 10000 + (i + 1)),
  record { con_id = a; call_count = 10000 + i + 1 },
  record { con_id = a + 1; call_count = i + 1 },
  get_last_sale-in_range symbol a (10000 + i) (omega (arith, h)),
  get_last_sale-in_range symbol (a + 1) i (omega (arith, h)),
  ap report (same_number a i),
)
  where
    report : ℕ → TradeReport
    report n = record {
      seq_num = n;
      symbol = symbol;
      price = (price_of symbol).0;
      size = (price_of symbol).1;
    }
