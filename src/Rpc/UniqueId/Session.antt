-- ===== src/Rpc/UniqueId/Session.antt =====
-- The calls of one connection to the thread pool server of DSBUniqueIDService: its handler behind the
-- stubs of UniqueID.
use mathlib.Core.List.{Nodup}
use apache_thrift_benchmarki.Prelude.{ℕ, ◌<◌, ◌≡◌, refl, ◌∙◌, List, [], ◌∷◌, arith, length, inl}
use apache_thrift_benchmarki.Prelude.Int.{ℤ, negsuc}
use apache_thrift_benchmarki.Format.{Text}
use apache_thrift_benchmarki.UniqueId.Process
use apache_thrift_benchmarki.UniqueId.Process.{Process, start, and_then}
use apache_thrift_benchmarki.UniqueId.Machine.{Host}
use apache_thrift_benchmarki.UniqueId.Handler.{Call, thread_pool_compute_unique_id}
use apache_thrift_benchmarki.UniqueId.Uniqueness.{serve, AllOn, Regular, timestamps}
use apache_thrift_benchmarki.UniqueId.Uniqueness.Distinct.{serve-Nodup}
use apache_thrift_benchmarki.Rpc.Wire.{M, ◌>>=◌, return, returned, Protocol, Token}
use apache_thrift_benchmarki.Rpc.Wire.Ends.{Ends, chain, return_ends}
use apache_thrift_benchmarki.Rpc.Call.Processing.{Connected, no_handler, exchange}
use apache_thrift_benchmarki.Rpc.UniqueId.{
  send_compute_unique_id, recv_compute_unique_id, dispatch_call,
}
use apache_thrift_benchmarki.Rpc.UniqueId.Trip.{unique_id_arrives}

module _ {W D : Type 0} (request response : Protocol W D) (fuel : ℕ) (iface : ℤ → M W Text) where
  unfoldable pub session : List ℤ → M W (List Text)
  session [] = return []
  session (id ∷ ids) = do
    text ←
        exchange request (send_compute_unique_id request id)
          (dispatch_call request response no_handler fuel iface)
          (recv_compute_unique_id response fuel)
    texts ← session ids
    return (text ∷ texts)

-- The server process and what the calls to come will meet: the clock, the thread, the machine.
abbrev pub Serving : Type 0
Serving = Process × List Call

-- A handler behind `iface` that does what `compute_unique_id` of the thread pool server does.
abbrev pub IsUniqueId :
    {W D : Type 0}
    → (Serving → List (Token D) → List (Token D) → W → Type 0)
    → (ℤ → M W Text)
    → Type 0
IsUniqueId Holds iface =
    (process : Process) (call : Call) (calls : List Call) (id : ℤ) (text : Text)
    → (thread_pool_compute_unique_id call process).0 ≡ Process.returned text
    → Ends (Holds (process, call ∷ calls) [] []) (iface id) (returned text)
        (Holds ((thread_pool_compute_unique_id call process).1, calls) [] [])

-- What a sequence returned, its first part returned, and the rest of it then.
and_then-first :
    {A B : Type 0} (r : Process.Outcome A × Process) (f : A → Process.M B) {b : B}
    → (and_then r f).0 ≡ Process.returned b
    → (a : A) × (r.0 ≡ Process.returned a)
      × ((f a r.1).0 ≡ Process.returned b)
      × ((and_then r f).1 ≡ (f a r.1).1)
and_then-first (Process.returned a, p) f h = (a, refl, h, refl)
and_then-first (Process.thrown e, p) f h = cc
and_then-first (Process.exit_failure, p) f h = cc
and_then-first (Process.undefined, p) f h = cc

serve-nil :
    (process : Process) {texts : List Text}
    → (serve [] process).0 ≡ Process.returned texts
    → (texts ≡ []) × ((serve [] process).1 ≡ process)
unfolding serve
serve-nil process h = (cc, refl)

serve-first :
    (call : Call) (calls : List Call) (process : Process) {texts : List Text}
    → (serve (call ∷ calls) process).0 ≡ Process.returned texts
    → (text : Text) × (rest : List Text) × ((thread_pool_compute_unique_id call process).0
        ≡ Process.returned text)
      × ((serve calls (thread_pool_compute_unique_id call process).1).0 ≡ Process.returned rest)
      × (texts ≡ text ∷ rest)
      × ((serve (call ∷ calls) process).1
          ≡ (serve calls (thread_pool_compute_unique_id call process).1).1)
unfolding serve
serve-first call calls process h =
    let (text, first, others, ends) =
      and_then-first (thread_pool_compute_unique_id call process) _ h in
    let (rest, later, last, ends') =
      and_then-first (serve calls (thread_pool_compute_unique_id call process).1) _ others in
    (text, rest, first, later, cc, ends ∙ ends')

module _ {W D : Type 0} {request response : Protocol W D}
    {Holds : Serving → List (Token D) → List (Token D) → W → Type 0}
    (connected : Connected request response Holds) (fuel : ℕ) (enough : 1 < fuel)
    (iface : ℤ → M W Text) (is_handler : IsUniqueId Holds iface) where
  session-serve :
      (ids : List ℤ) (calls : List Call) (texts : List Text) (process : Process)
      → length ids ≡ length calls
      → (serve calls process).0 ≡ Process.returned texts
      → Ends
          (Holds (process, calls) [] [])
          (session request response fuel iface ids)
          (returned texts)
          (Holds ((serve calls process).1, []) [] [])
  unfolding session
  session-serve [] [] texts process same h =
      let (none_left, ends) = serve-nil process h in rw none_left (rw ends (return_ends []))
  session-serve [] (call ∷ calls) texts process same h = absurd (omega arith)
  session-serve (id ∷ ids) [] texts process same h = absurd (omega arith)
  session-serve (id ∷ ids) (call ∷ calls) texts process same h =
      let (text, rest, first, later, joined, ends) = serve-first call calls process h in
      rw joined (
        rw ends (
          chain _
            (unique_id_arrives connected fuel enough iface id (inl text)
              (is_handler process call calls id text first))
            (chain _
              (session-serve ids calls rest (thread_pool_compute_unique_id call process).1
                (omega arith) later)
              (return_ends _))))

  -- Through the stubs too, the ids that a freshly started thread pool server of DSBUniqueIDService
  -- hands out are distinct: over a connection that carries what is written to it in order, as
  -- Thrift documents of its protocols, to a handler that does what compute_unique_id does, calls
  -- one after the other, whatever ids the client passes, all return a text, and no two are equal,
  -- while the clock does not fall, stays within 40 bits of milliseconds of the custom epoch, no
  -- call is preceded by 4096 calls of its own millisecond, and all meet one machine.
  pub session-Nodup :
      (host : Host) (ids : List ℤ) (calls : List Call)
      → length ids ≡ length calls
      → AllOn host calls
      → Regular (negsuc 0) [] (timestamps calls)
      → (texts : List Text) × Ends
          (Holds (start, calls) [] [])
          (session request response fuel iface ids)
          (returned texts)
          (Holds ((serve calls start).1, []) [] [])
        × (length texts ≡ length ids)
        × Nodup texts
  session-Nodup host ids calls same on regular =
      let (texts, served, long, distinct) = serve-Nodup host calls on regular in
      (texts, session-serve ids calls texts start same served, omega (arith, long, same), distinct)
