-- ===== src/UniqueId/Process.antt =====
-- What the six unique id servers share: the static variables of a server process, what it prints,
-- and how a call can end.
use apache_thrift_benchmarki.Prelude.{ℕ, ◌≡◌, ◌++◌, List, [], ◌∷◌}
use apache_thrift_benchmarki.Prelude.Int.{ℤ, negsuc}

-- What is written to standard output, a value for each statement that prints.
pub data Line : Type 0 where
  current_thread : ℕ → Line
  timestamps_not_incremental : Line
  no_mac_address : Line
  unique_id_is : ℕ → Line

-- `CURRENT_TIMESTAMP` (int64_t) and `counter` (int, never negative), with the sockets that
-- `GetMachineId` has open and the output so far.
pub record Process : Type 0 where
  pub current_timestamp : ℤ
  pub counter : ℕ
  pub sockets : ℕ
  pub output : List Line

-- `static int64_t CURRENT_TIMESTAMP = -1; static int counter = 0;`
abbrev pub start : Process
start = record { current_timestamp = negsuc 0; counter = 0; sockets = 0; output = [] }

abbrev pub print : Line → Process → Process
print l p = record p { output = p.output ++ l ∷ [] }

-- The exceptions of `stoul`.
pub data Exception : Type 0 where
  invalid_argument out_of_range : Exception

-- A call returns, throws, ends the process by `exit(EXIT_FAILURE)`, or does what C++ leaves
-- undefined.
pub data Outcome (A : Type 0) : Type 0 where
  returned : A → Outcome A
  thrown : Exception → Outcome A
  exit_failure : Outcome A
  undefined : Outcome A

abbrev pub M : Type 0 → Type 0
M A = Process → Outcome A × Process

abbrev pub and_then : {A B : Type 0} → Outcome A × Process → (A → M B) → Outcome B × Process
and_then (returned a, p) f = f a p
and_then (thrown e, p) f = (thrown e, p)
and_then (exit_failure, p) f = (exit_failure, p)
and_then (undefined, p) f = (undefined, p)

infixl 5 ◌>>=◌ ◌>>◌
abbrev pub ◌>>=◌ : {A B : Type 0} → M A → (A → M B) → M B
◌>>=◌ m f p = and_then (m p) f

abbrev pub ◌>>◌ : {B : Type 0} → M (Unit {0}) → M B → M B
◌>>◌ m k = m >>= λ _. k

abbrev pub return : {A : Type 0} → A → M A
return a p = (returned a, p)

-- `std::cout << …`
abbrev pub say : Line → M (Unit {0})
say l p = (returned tt, print l p)

-- What follows a call that returned.
pub and_then-returned :
    {A B : Type 0} (r : Outcome A × Process) {a : A} (f : A → M B)
    → r.0 ≡ returned a
    → and_then r f ≡ f a r.1
and_then-returned (returned b, q) f h = cc
and_then-returned (thrown e, q) f h = cc
and_then-returned (exit_failure, q) f h = cc
and_then-returned (undefined, q) f h = cc
