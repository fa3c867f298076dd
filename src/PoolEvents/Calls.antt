-- ===== src/PoolEvents/Calls.antt =====
-- The calls of one connection are counted in its own context, whatever other connections do. An
-- event is one step here, as if nothing came between its operations: no other event touches its context.
pub mod Session
use apache_thrift_benchmarki.Prelude.{
  ℕ_discrete, ℕ, zero, suc, ◌+◌, ◌-◌, ◌^◌, ◌<◌, ◌≡◌, ◌≢◌, refl, sym, ap, ◌∙◌, inl, inr, List, [],
  ◌∷◌, ◌++◌, Option, none, some, Option-cases, arith, ◌==◌, if◌then◌else◌, get_elem?, length,
}
use mathlib.Core.Option.{some-injective}
use mathlib.Core.Path.{ap₂}
use apache_thrift_benchmarki.Prelude.Lists.{set, get_elem?-set_self, get_elem?-set_ne}
use apache_thrift_benchmarki.Format.{codes, to_string}
use apache_thrift_benchmarki.PoolEvents.{
  ThreadManager, Pool, print_stats, grow, shrink, create_context, free, delete_context,
  process_context,
}

-- What the server tells the handler, by the address of the context.
pub data Event : Type 0 where
  create : Event
  process : ℕ → Event
  delete : ℕ → Event

get_elem?-append :
    {A : Type 0} (xs ys : List A) (i : ℕ) {a : A}
    → get_elem? xs i ≡ some a
    → get_elem? (xs ++ ys) i ≡ some a
get_elem?-append [] ys i h = cc
get_elem?-append (x ∷ xs) ys zero h = h
get_elem?-append (x ∷ xs) ys (suc i) h = get_elem?-append xs ys i h

pub get_elem?-length :
    {A : Type 0} (xs : List A) (a : A) → get_elem? (xs ++ a ∷ []) (length xs) ≡ some a
get_elem?-length [] a = refl
get_elem?-length (x ∷ xs) a = get_elem?-length xs a

pub get_elem?-lt :
    {A : Type 0} (xs : List A) (i : ℕ) {a : A} → get_elem? xs i ≡ some a → i < length xs
get_elem?-lt [] i h = cc
get_elem?-lt (x ∷ xs) zero h = omega arith
get_elem?-lt (x ∷ xs) (suc i) h = omega (arith, get_elem?-lt xs i h)

unchanged : (n : ℕ) → ◌≡◌ {A = Option (Option ℕ)} (some (some n)) (some (some (n + 0)))
unchanged n = ap (λ k. some (some k)) (omega arith)

-- One cell counts up: its own count is one more, another cell's is the same.
get_elem?-count :
    (cells : List (Option ℕ)) (c ctx n m : ℕ)
    → get_elem? cells c ≡ some (some m)
    → get_elem? cells ctx ≡ some (some n)
    → get_elem? (set cells c (some (m + 1))) ctx ≡ some (some (n + (if c == ctx then 1 else 0)))
get_elem?-count cells c ctx n m at_c at_ctx = elim (ℕ_discrete c ctx) [
  | yes hit ↦
      let same : m ≡ n = ground (arith, ap (get_elem? cells) hit) in
      rw (← hit)
        (get_elem?-set_self cells c (some (m + 1)) (get_elem?-lt cells c at_c) ∙ ground arith)
  | no miss ↦ get_elem?-set_ne cells (some (m + 1)) miss ∙ at_ctx ∙ ground arith
]

module _ {T : Type 0} (t_man : ThreadManager T) (t_min t_max : ℕ) where
  unfoldable pub handle : Event → Pool T → Option (Pool T)
  handle create s = some (create_context t_man t_max s).1
  handle (process ctx) s = process_context t_man ctx s
  handle (delete ctx) s = delete_context t_man t_min ctx s

  pub grow-cells : (s : Pool T) → (grow t_man t_max s).cells ≡ s.cells
  unfolding grow
  grow-cells s = ground arith

  pub shrink-cells : (s : Pool T) → (shrink t_man t_min s).cells ≡ s.cells
  unfolding shrink
  shrink-cells s = ground arith

  pub create_context-cells :
      (s : Pool T) → (create_context t_man t_max s).1.cells ≡ s.cells ++ some 0 ∷ []
  unfolding create_context
  create_context-cells s =
      ap (λ c. c ++ some 0 ∷ []) (grow-cells (print_stats t_man "  create   " 0 s))

  pub process_context-cells :
      (ctx n : ℕ) (s : Pool T)
      → get_elem? s.cells ctx ≡ some (some n)
      → n < 2 ^ 31 - 1
      → (s' : Pool T) × (process_context t_man ctx s ≡ some s')
        × (s'.cells ≡ set s.cells ctx (some (n + 1)))
        × (s'.output ≡ s.output ++ (codes "    Client call #" ++ to_string (n + 1)) ∷ [])
  unfolding process_context
  process_context-cells ctx n s h room = (
    record s {
      cells = set s.cells ctx (some (n + 1));
      output = s.output ++ (codes "    Client call #" ++ to_string (n + 1)) ∷ [];
    },
    ground arith,
    refl,
    refl,
  )

  process_context-inv :
      (ctx : ℕ) (s s' : Pool T)
      → process_context t_man ctx s ≡ some s'
      → (m : ℕ) × (get_elem? s.cells ctx ≡ some (some m))
        × (s'.cells ≡ set s.cells ctx (some (m + 1)))
  unfolding process_context
  process_context-inv ctx s s' h = elim (Option-cases (get_elem? s.cells ctx)) [
    | inl gone ↦ absurd (ground arith)
    | inr (c, e) ↦ elim (Option-cases c) [
      | inl deleted ↦ absurd (ground arith)
      | inr (m, live) ↦ (m, ground arith, ground arith)
    ]
  ]

  delete_context-inv :
      (ctx : ℕ) (s s' : Pool T)
      → delete_context t_man t_min ctx s ≡ some s'
      → s'.cells ≡ set s.cells ctx none
  unfolding delete_context free
  delete_context-inv ctx s s' h = ground (arith, shrink-cells (print_stats t_man "  delete   " 1 s))

  -- How many of the calls are those of the context.
  abbrev pub calls_of : ℕ → Event → ℕ
  calls_of ctx create = 0
  calls_of ctx (process c) = if c == ctx then 1 else 0
  calls_of ctx (delete c) = 0

  abbrev pub Spares : ℕ → Event → Type 0
  Spares ctx create = Unit {0}
  Spares ctx (process c) = Unit {0}
  Spares ctx (delete c) = c ≢ ctx

  created : (s s' : Pool T) → handle create s ≡ some s' → s'.cells ≡ s.cells ++ some 0 ∷ []
  unfolding handle
  created s s' h =
      ap (λ (q : Pool T). q.cells) (sym (some-injective _ _ h)) ∙ create_context-cells s

  handle-calls_of :
      (e : Event) (s s' : Pool T) (ctx n : ℕ)
      → handle e s ≡ some s'
      → Spares ctx e
      → get_elem? s.cells ctx ≡ some (some n)
      → get_elem? s'.cells ctx ≡ some (some (n + calls_of ctx e))
  unfolding handle
  handle-calls_of create s s' ctx n h keep live =
      ap (λ cells. get_elem? cells ctx) (created s s' h)
      ∙ get_elem?-append s.cells (some 0 ∷ []) ctx live
      ∙ unchanged n
  handle-calls_of (process c) s s' ctx n h keep live =
      let (m, at_c, cells) = process_context-inv c s s' h in
      ap (λ cs. get_elem? cs ctx) cells ∙ get_elem?-count s.cells c ctx n m at_c live
  handle-calls_of (delete c) s s' ctx n h keep live =
      ap (λ cells. get_elem? cells ctx) (delete_context-inv c s s' h)
      ∙ get_elem?-set_ne s.cells none keep
      ∙ live
      ∙ unchanged n

  infixl 5 ◌>>=◌
  abbrev pub ◌>>=◌ : Option (Pool T) → (Pool T → Option (Pool T)) → Option (Pool T)
  none >>= f = none
  some s >>= f = f s

  -- The events of the pool in turn; `none` where one of them finds its context gone.
  unfoldable pub run : List Event → Pool T → Option (Pool T)
  unfolding handle
  run [] s = some s
  run (e ∷ es) s = handle e s >>= run es

  abbrev pub calls_in : ℕ → List Event → ℕ
  calls_in ctx [] = 0
  calls_in ctx (e ∷ es) = calls_of ctx e + calls_in ctx es

  abbrev pub AllSpare : ℕ → List Event → Type 0
  AllSpare ctx [] = Unit {0}
  AllSpare ctx (e ∷ es) = Spares ctx e × AllSpare ctx es

  -- Where a sequence of events runs through, a context that it does not delete holds at the end its
  -- count at the start and one more for each of its own calls, whatever events of other contexts
  -- lie between.
  pub run-calls_in :
      (events : List Event) (s s' : Pool T) (ctx n : ℕ)
      → run events s ≡ some s'
      → AllSpare ctx events
      → get_elem? s.cells ctx ≡ some (some n)
      → get_elem? s'.cells ctx ≡ some (some (n + calls_in ctx events))
  unfolding run
  run-calls_in [] s s' ctx n h keep live =
      ap (λ (q : Pool T). get_elem? q.cells ctx) (sym (some-injective _ _ h)) ∙ live ∙ unchanged n
  run-calls_in (e ∷ es) s s' ctx n h keep live = elim (Option-cases (handle e s)) [
    | inl gone ↦ absurd (ground arith)
    | inr (q, went) ↦
        run-calls_in es q s' ctx (n + calls_of ctx e) (ground arith) keep.1
          (handle-calls_of e s q ctx n went keep.0 live)
        ∙ ap (λ k. some (some k)) (omega arith)
  ]
