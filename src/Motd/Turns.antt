-- ===== src/Motd/Turns.antt =====
-- The order in which the messages come.
use apache_thrift_benchmarki.Prelude.{
  ℕ, zero, suc, ◌+◌, ◌%◌, ◌^◌, ◌<◌, ◌≡◌, refl, ap, ◌∙◌, arith, List, [], ◌∷◌, Option, some,
  get_elem?, length,
}
use mathlib.Core.Path.{ap₂}
use apache_thrift_benchmarki.Format.{Text, codes}
use apache_thrift_benchmarki.Motd.{MessageHandler, msgs, motd, motds}

-- The message of call number `n`.
abbrev pub message : ℕ → Option Text
message n = get_elem? msgs (n % 3)

-- The messages of `k` calls, the first of which has number `n`.
abbrev pub turns : ℕ → ℕ → List (Option Text)
turns n zero = []
turns n (suc k) = message n ∷ turns (n + 1) k

motd-turn :
    (thread data_sent : Text) (handler : MessageHandler)
    → handler.msg_index + 1 < 2 ^ 32
    → ((motd thread data_sent handler).0 ≡ message (handler.msg_index + 1))
      × ((motd thread data_sent handler).1.msg_index ≡ handler.msg_index + 1)
unfolding motd
motd-turn thread data_sent handler h = (
  ap (λ n. get_elem? msgs (n % 3)) (small (handler.msg_index + 1) h),
  small (handler.msg_index + 1) h,
)
  where
    small : (n : ℕ) → n < 2 ^ 32 → n % 2 ^ 32 ≡ n
    small n h = omega (arith, h)

-- As long as the index does not wrap, the calls of a connection return the three messages in turn,
-- and the index counts the calls.
pub motds-turns :
    (thread : Text) (texts : List Text) (handler : MessageHandler)
    → handler.msg_index + length texts < 2 ^ 32
    → ((motds thread texts handler).0 ≡ turns (handler.msg_index + 1) (length texts))
      × ((motds thread texts handler).1.msg_index ≡ handler.msg_index + length texts)
unfolding motds
motds-turns thread [] handler h = (refl, omega arith)
motds-turns thread (data_sent ∷ later) handler h =
    let (first, index) = motd-turn thread data_sent handler (omega (arith, h)) in
    let (more, index') =
      motds-turns thread later (motd thread data_sent handler).1 (omega (arith, h, index)) in
    (
      ap₂ ◌∷◌ first (more ∙ ap (λ n. turns (n + 1) (length later)) index),
      index' ∙ omega (arith, index),
    )

last_index : (n : ℕ) → n + 2 ≡ 2 ^ 32 → (n + 1) % 2 ^ 32 % 3 ≡ 0
last_index n h = omega (arith, h)

index_after : (n : ℕ) → n + 2 ≡ 2 ^ 32 → ((n + 1) % 2 ^ 32 + 1) % 2 ^ 32 % 3 ≡ 0
index_after n h = omega (arith, h)

-- Around the wrap of the unsigned index two calls that follow each other return the same message.
pub motd-wraps :
    (thread first second : Text) (handler : MessageHandler)
    → handler.msg_index + 2 ≡ 2 ^ 32
    → let before = motd thread first handler in
      (before.0 ≡ some (codes "Apache Thrift!!"))
      × ((motd thread second before.1).0 ≡ some (codes "Apache Thrift!!"))
unfolding motd
motd-wraps thread first second handler h = (
  ap (get_elem? msgs) (last_index handler.msg_index h),
  ap (get_elem? msgs) (index_after handler.msg_index h),
)
