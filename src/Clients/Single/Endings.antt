-- ===== src/Clients/Single/Endings.antt =====
-- How the clients that make one call end, and how long the console client goes on.
use apache_thrift_benchmarki.Prelude.{
  ℕ, zero, suc, ◌+◌, ◌<◌, ◌≡◌, refl, arith, Bool, true, false, not, inl, inr, Bool-cases,
  Option-cases, List, [], ◌∷◌, ◌++◌, if◌then◌else◌, length,
}
use apache_thrift_benchmarki.Format.{Text, codes, same_text}
use apache_thrift_benchmarki.Clients.{
  Request, Action, Network, done, act, open_transport, opened, called, printed, closed,
}
use apache_thrift_benchmarki.Clients.Load.Endings.{closes, ended}
use apache_thrift_benchmarki.Clients.Load.Endless.{Never, Never-then, Never-first}
use apache_thrift_benchmarki.Clients.Traces.{Serves}
use apache_thrift_benchmarki.Clients.Proxies.Requests.{blocks}
use apache_thrift_benchmarki.Clients.Single.{
  getline, echo_thread_pool_endpoint, echo_nonblocking_endpoint, motd_endpoint,
  echo_thread_pool_main, echo_nonblocking_main, motd_loop, motd_main,
}

abbrev pub other_than_q : Text → Bool
other_than_q t = not (same_text t (codes "q"))

abbrev pub motd_request : Request
motd_request = Request.motd (codes "This is amazing")

-- One pass of the console client.
abbrev pub motd_block : Text → List Action
motd_block t =
    called motd_request ∷ printed t ∷ printed (codes "Enter to call motd, 'q' to quit") ∷ []

abbrev pub NoQ : List Text → Type 0
NoQ [] = Unit {0}
NoQ (line ∷ lines) = (other_than_q line ≡ true) × NoQ lines

not_q : (t : Text) → other_than_q t ≡ true → same_text t (codes "q") ≡ false
not_q t other = elim (Bool-cases (same_text t (codes "q"))) [ inl e ↦ cc | inr e ↦ e ]

is_q : same_text (codes "q") (codes "q") ≡ true
unfolding same_text
is_q = refl

module _ {W : Type 0} (net : Network W) where
  echo_nonblocking_main_ends :
      (w : W)
      → (ended (echo_nonblocking_main net w).0 ≡ 1) × (closes (echo_nonblocking_main net w).1.1 ≡ 1)
  unfolding echo_nonblocking_main
  echo_nonblocking_main_ends w =
      let opening = net.open_at echo_nonblocking_endpoint w in
      elim (Bool-cases opening.0) [
        | inl e ↦
            elim (Option-cases
              (net.answer echo_nonblocking_endpoint Request.hello_world opening.1).0) [
                | inl e' ↦ (
                  rw (e, echo_nonblocking_main) (rw e' refl),
                  rw (e, echo_nonblocking_main) (rw e' refl),
                )
                | inr (t, e') ↦ (
                  rw (e, echo_nonblocking_main) (rw e' refl),
                  rw (e, echo_nonblocking_main) (rw e' refl),
                )
              ]
        | inr e ↦ (rw (e, echo_nonblocking_main) refl, rw (e, echo_nonblocking_main) refl)
      ]

  abbrev one_if : Bool → ℕ
  one_if b = if b then 1 else 0

  echo_thread_pool_main_ends :
      (w : W)
      → (ended (echo_thread_pool_main net w).0 ≡ one_if (net.open_at echo_thread_pool_endpoint w).0)
        × (closes (echo_thread_pool_main net w).1.1
            ≡ one_if (net.open_at echo_thread_pool_endpoint w).0)
  unfolding echo_thread_pool_main
  echo_thread_pool_main_ends w =
      let opening = net.open_at echo_thread_pool_endpoint w in
      elim (Bool-cases opening.0) [
        | inl e ↦
            elim (Option-cases
              (net.answer echo_thread_pool_endpoint Request.hello_world opening.1).0) [
                | inl e' ↦ (
                  rw (e, echo_thread_pool_main) (rw e' refl),
                  rw (e, echo_thread_pool_main) (rw e' refl),
                )
                | inr (t, e') ↦ (
                  rw (e, echo_thread_pool_main) (rw e' refl),
                  rw (e, echo_thread_pool_main) (rw e' refl),
                )
              ]
        | inr e ↦ (rw (e, echo_thread_pool_main) refl, rw (e, echo_thread_pool_main) refl)
      ]

  -- Whatever the network does, the client of echoservice-nb comes to its end and closes its
  -- transport once; that of echoservice-threadpool does so exactly if the transport can be opened,
  -- and otherwise does neither.
  pub echo_clients_end :
      (w : W)
      → (ended (echo_nonblocking_main net w).0 ≡ 1)
        × (closes (echo_nonblocking_main net w).1.1 ≡ 1)
        × (ended (echo_thread_pool_main net w).0
            ≡ (if (net.open_at echo_thread_pool_endpoint w).0 then 1 else 0))
        × (closes (echo_thread_pool_main net w).1.1
            ≡ (if (net.open_at echo_thread_pool_endpoint w).0 then 1 else 0))
  echo_clients_end w =
      let (ends, closes_once) = echo_nonblocking_main_ends w in
      let (ends', closes_once') = echo_thread_pool_main_ends w in
      (ends, closes_once, ends', closes_once')

  motd_loop-quits :
      (before after : List Text)
      → NoQ before
      → Serves net motd_endpoint motd_request other_than_q
      → (fuel : ℕ) (w : W) → length before < fuel
      → (w' : W) × (texts : List Text) × (motd_loop net fuel
            (record { lines = before ++ codes "q" ∷ after; good = true })
            w
          ≡ (done tt, (w', blocks motd_block texts)))
        × (length texts ≡ length before + 1)
  unfolding motd_loop getline
  motd_loop-quits before after no_q serves zero w h = absurd (omega arith)
  motd_loop-quits [] after no_q serves (suc fuel) w h =
      let (t, e, _) = serves.answers w in
      (
        (net.answer motd_endpoint motd_request w).1,
        t ∷ [],
        rw (e, motd_loop) (rw is_q refl),
        omega arith,
      )
  motd_loop-quits (line ∷ before) after no_q serves (suc fuel) w h =
      let (t, e, _) = serves.answers w in
      let (w', texts, e', same) =
        motd_loop-quits before after no_q.1 serves fuel (net.answer motd_endpoint motd_request w).1
          (omega arith) in
      (w', t ∷ texts, rw (e, motd_loop) (rw (not_q line no_q.0) (rw e' refl)), omega arith)

  motd_loop-Never :
      (lines : List Text) (good : Bool)
      → NoQ lines
      → Serves net motd_endpoint motd_request other_than_q
      → (fuel : ℕ) → Never (motd_loop net fuel (record { lines = lines; good = good }))
  unfolding motd_loop getline same_text
  motd_loop-Never lines good no_q serves zero = record { at = λ w. refl }
  motd_loop-Never lines false no_q serves (suc fuel) = record {
    at = λ w.
        let (t, e, other) = serves.answers w in
        rw (e, motd_loop)
          (rw (not_q t other) (
            (motd_loop-Never lines false no_q serves fuel).at
              (net.answer motd_endpoint motd_request w).1));
  }
  motd_loop-Never [] true no_q serves (suc fuel) = record {
    at = λ w.
        let (t, e, other) = serves.answers w in
        rw (e, motd_loop)
          ((motd_loop-Never [] false no_q serves fuel).at
            (net.answer motd_endpoint motd_request w).1);
  }
  motd_loop-Never (line ∷ lines) true no_q serves (suc fuel) = record {
    at = λ w.
        let (t, e, other) = serves.answers w in
        rw (e, motd_loop)
          (rw (not_q line no_q.0) (
            (motd_loop-Never lines true no_q.1 serves fuel).at
              (net.answer motd_endpoint motd_request w).1));
  }

  -- Against a server that accepts the connection and never answers "q", the client of
  -- dump/tthreaded ends when its user enters a line "q", if the fuel exceeds the number of lines
  -- before it: it has called once more than there are lines before it, and closes.
  pub motd_main-quits :
      (before after : List Text) (fuel : ℕ) (w : W)
      → NoQ before
      → length before < fuel
      → Serves net motd_endpoint motd_request other_than_q
      → (w' : W) × (texts : List Text) × (motd_main net fuel
            (record { lines = before ++ codes "q" ∷ after; good = true })
            w
          ≡ (done tt, (w', opened ∷ blocks motd_block texts ++ closed ∷ [])))
        × (length texts ≡ length before + 1)
  unfolding motd_main
  motd_main-quits before after fuel w no_q h serves =
      let (w', texts, e, same) =
        motd_loop-quits before after no_q serves fuel (net.open_at motd_endpoint w).1 h in
      (w', texts, rw (serves.opens w, motd_main) (rw e refl), same)

  -- Against a server that accepts the connection and never answers "q", the client of
  -- dump/tthreaded never comes to its end if no line of its input is "q": the end of the input does
  -- not stop it.
  pub motd_main-Never :
      (lines : List Text) (good : Bool) (fuel : ℕ)
      → NoQ lines
      → Serves net motd_endpoint motd_request other_than_q
      → Never (motd_main net fuel (record { lines = lines; good = good }))
  unfolding motd_main
  motd_main-Never lines good fuel no_q serves =
      Never-then (open_transport net motd_endpoint) _ (λ _.
        Never-first (motd_loop net fuel (record { lines = lines; good = good })) (λ _. act closed)
          (motd_loop-Never lines good no_q serves fuel))
