-- ===== src/Clients.antt =====
-- What the client programs do, as seen from their transport: they open it, call the stub, log how
-- long it took, print, sleep and close it. The network with the server behind it is a parameter; the
-- measured times are left out.
pub mod Load
pub mod Proxies
pub mod Single
pub mod Traces
pub mod Threads
use apache_thrift_benchmarki.Prelude.{
  ℕ, zero, suc, ◌+◌, ◌≡◌, Bool, true, false, List, [], ◌∷◌, ◌++◌, Option, none, some, if◌then◌else◌,
}
use apache_thrift_benchmarki.Prelude.Int.{ℤ, pos}
use apache_thrift_benchmarki.Format.{Text}
use apache_thrift_benchmarki.Endpoints.{Endpoint}

-- The calls of the stubs, with the arguments that the clients pass.
pub data Request : Type 0 where
  compute_unique_id : ℕ → Request
  compute_list : ℕ → ℕ → ℕ → Request  -- ones, of that size
  compute_result : ℕ → ℕ → Request
  hello_world : Request
  motd : Text → Request
  call : Request  -- EchoService, with a TraceContext of a random number

-- What a client does, in order.
pub data Action : Type 0 where
  opened : Action
  called : Request → Action
  logged : Action  -- the time that a call took
  printed : Text → Action
  responded : Text → Action  -- to a request for a REST proxy
  shown_id : Action  -- the random number of a request
  slept : Action
  complained : Action  -- of an exception, to the error output
  closed : Action

-- The network and the servers, with their states: `open()` fails where it throws, `isOpen()`, and a
-- call of a stub, which gives the text that comes back (the empty one where none is expected) or throws.
pub record Network (W : Type 0) : Type 0 where
  pub open_at : Endpoint → W → Bool × W
  pub is_open : Endpoint → W → Bool
  pub answer : Endpoint → Request → W → Option Text × W

-- A program comes to its end, meets an exception that it does not catch, or runs still.
pub data Outcome (A : Type 0) : Type 0 where
  done : A → Outcome A
  uncaught : Outcome A
  running : Outcome A

-- What a part of a program gives: the outcome, the state of the network, and what was done.
abbrev pub C : Type 0 → Type 0 → Type 0
C W A = W → Outcome A × (W × List Action)

module _ {W : Type 0} where
  abbrev pub and_then :
      {A B : Type 0} → Outcome A × (W × List Action) → (A → C W B) → Outcome B × (W × List Action)
  and_then (done a, (w, actions)) f = let r = f a w in (r.0, (r.1.0, actions ++ r.1.1))
  and_then (uncaught, (w, actions)) f = (uncaught, (w, actions))
  and_then (running, (w, actions)) f = (running, (w, actions))

  infixl 5 ◌>>=◌ ◌>>◌
  abbrev pub ◌>>=◌ : {A B : Type 0} → C W A → (A → C W B) → C W B
  ◌>>=◌ m f w = and_then (m w) f

  abbrev pub ◌>>◌ : {B : Type 0} → C W (Unit {0}) → C W B → C W B
  ◌>>◌ m k = m >>= λ _. k

  abbrev pub return : {A : Type 0} → A → C W A
  return a w = (done a, (w, []))

  abbrev pub act : Action → C W (Unit {0})
  act action w = (done tt, (w, action ∷ []))

  abbrev pub caught :
      List Action → Outcome (Unit {0}) × (W × List Action) → Outcome (Unit {0}) × (W × List Action)
  caught handler (done a, (w, actions)) = (done a, (w, actions))
  caught handler (uncaught, (w, actions)) = (done tt, (w, actions ++ handler))
  caught handler (running, (w, actions)) = (running, (w, actions))

  -- `try { m } catch (const std::exception &e) { … }` with what the handler does; `complained` is
  -- `std::cerr << e.what() << '\n';`.
  abbrev pub try_catch : List Action → C W (Unit {0}) → C W (Unit {0})
  try_catch handler m w = caught handler (m w)

  -- `for (i = 0; i < n; i++) body`
  unfoldable pub repeat : ℕ → C W (Unit {0}) → C W (Unit {0})
  repeat zero body = return tt
  repeat (suc n) body = body >> repeat n body

  module _ (net : Network W) where
    abbrev pub opened_or : Bool × W → Outcome (Unit {0}) × (W × List Action)
    opened_or (true, w) = (done tt, (w, opened ∷ []))
    opened_or (false, w) = (uncaught, (w, []))

    -- `transport->open()`
    abbrev pub open_transport : Endpoint → C W (Unit {0})
    open_transport endpoint w = opened_or (net.open_at endpoint w)

    -- `if (!transport->isOpen()) transport->open();`
    abbrev pub open_if_closed : Endpoint → C W (Unit {0})
    open_if_closed endpoint w =
        if net.is_open endpoint w then (done tt, (w, [])) else open_transport endpoint w

    abbrev pub replied : Request → Option Text × W → Outcome Text × (W × List Action)
    replied request (some text, w) = (done text, (w, called request ∷ []))
    replied request (none, w) = (uncaught, (w, called request ∷ []))

    -- A call of a stub.
    abbrev pub ask : Endpoint → Request → C W Text
    ask endpoint request w = replied request (net.answer endpoint request w)
