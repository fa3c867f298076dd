-- ===== src/Clients/Proxies/Kept.antt =====
-- The proxies that keep one transport.
use apache_thrift_benchmarki.Prelude.{
  ℕ, suc, ◌≡◌, refl, ap, ◌∙◌, true, inl, inr, Bool-cases, List, [], ◌∷◌, if◌then◌else◌,
}
use apache_thrift_benchmarki.Format.{Text}
use apache_thrift_benchmarki.Endpoints.{Endpoint}
use apache_thrift_benchmarki.Clients.{
  Request, Action, Network, C, ◌>>◌, repeat, open_if_closed, opened,
}
use apache_thrift_benchmarki.Clients.Load.Runs.{any_text, ones_list}
use apache_thrift_benchmarki.Clients.Traces.{Serves}
use apache_thrift_benchmarki.Clients.Proxies.{
  hello_proxy_endpoint, compute_nonblocking_endpoint, compute_thread_pool_endpoint, hello_reply,
  compute_reply, hello_on_request, compute_nonblocking_on_request, compute_thread_pool_on_request,
}
use apache_thrift_benchmarki.Clients.Proxies.Requests.{
  Once, Ended, repeat-blocks, hello_block, compute_block,
}

module _ {W : Type 0} (net : Network W) where
  -- A transport stays open once it is opened, while calls are answered.
  pub record StaysOpen (endpoint : Endpoint) (request : Request) : Type 0 where
    pub after_open : (w : W) → net.is_open endpoint (net.open_at endpoint w).1 ≡ true
    pub after_call :
        (w : W)
        → net.is_open endpoint w ≡ true
        → net.is_open endpoint (net.answer endpoint request w).1 ≡ true

  abbrev pub IsOpen : Endpoint → W → Type 0
  IsOpen endpoint w = net.is_open endpoint w ≡ true

  hello_reply-Once :
      Serves net hello_proxy_endpoint Request.hello_world any_text
      → StaysOpen hello_proxy_endpoint Request.hello_world
      → Once (IsOpen hello_proxy_endpoint) (hello_reply net) hello_block
  hello_reply-Once serves stays w is_open =
      let (t, e, _) = serves.answers w in
      (
        (net.answer hello_proxy_endpoint Request.hello_world w).1,
        t,
        rw e refl,
        stays.after_call w is_open,
      )

  compute_reply-Once :
      (endpoint : Endpoint)
      → Serves net endpoint ones_list any_text
      → StaysOpen endpoint ones_list
      → Once (IsOpen endpoint) (compute_reply net endpoint) compute_block
  compute_reply-Once endpoint serves stays w is_open =
      let (t, e, _) = serves.answers w in
      ((net.answer endpoint ones_list w).1, t, rw e refl, stays.after_call w is_open)

  open_if_closed-Once :
      (endpoint : Endpoint) (body : C W (Unit {0})) (block : Text → List Action)
      → Once (IsOpen endpoint) body block
      → Once (IsOpen endpoint) (open_if_closed net endpoint >> body) block
  open_if_closed-Once endpoint body block once w is_open =
      let (w', t, e, still) = once w is_open in (w', t, rw is_open (rw e refl), still)

  -- Over a transport that is kept, only the first request may open it.
  kept_connection :
      {request : Request} (endpoint : Endpoint) (body : C W (Unit {0})) (block : Text → List Action)
      → Serves net endpoint request any_text
      → StaysOpen endpoint request
      → Once (IsOpen endpoint) body block
      → (n : ℕ) (w : W)
      → Ended w
          (open_if_closed net endpoint >> body)
          (suc n)
          (if net.is_open endpoint w then [] else (opened ∷ []))
          block
  unfolding repeat
  kept_connection endpoint body block serves stays once n w =
      elim (Bool-cases (net.is_open endpoint w)) [
        | inl is_open ↦
            let (w', texts, e, same) =
              repeat-blocks (IsOpen endpoint) _ block (open_if_closed-Once endpoint body block once)
                (suc n) w is_open in
            (w', texts, e ∙ rw is_open refl, same)
        | inr is_closed ↦
            let (w', t, e, still) = once (net.open_at endpoint w).1 (stays.after_open w) in
            let (w'', texts, e', same) =
              repeat-blocks (IsOpen endpoint) _ block (open_if_closed-Once endpoint body block once)
                n w' still in
            (
              w'',
              t ∷ texts,
              rw (is_closed, repeat) (rw (serves.opens w) (rw e (rw e' refl))),
              ap suc same,
            )
      ]

  -- Where the server accepts connections and answers every call, and an open transport stays open,
  -- the proxies that keep one transport (of echoservice-ttd and of the nonblocking and thread pool
  -- MLInfer) answer every one of several requests, and only the first of them opens the transport,
  -- if it was closed.
  pub kept_connections :
      (n : ℕ) (w : W)
      → Serves net hello_proxy_endpoint Request.hello_world any_text
      → Serves net compute_nonblocking_endpoint ones_list any_text
      → Serves net compute_thread_pool_endpoint ones_list any_text
      → StaysOpen hello_proxy_endpoint Request.hello_world
      → StaysOpen compute_nonblocking_endpoint ones_list
      → StaysOpen compute_thread_pool_endpoint ones_list
      → Ended w
          (hello_on_request net)
          (suc n)
          (if net.is_open hello_proxy_endpoint w then [] else (opened ∷ []))
          hello_block
        × Ended w
            (compute_nonblocking_on_request net)
            (suc n)
            (if net.is_open compute_nonblocking_endpoint w then [] else (opened ∷ []))
            compute_block
        × Ended w
            (compute_thread_pool_on_request net)
            (suc n)
            (if net.is_open compute_thread_pool_endpoint w then [] else (opened ∷ []))
            compute_block
  unfolding hello_on_request compute_nonblocking_on_request compute_thread_pool_on_request
  kept_connections n w hello nonblocking thread_pool stays stays' stays'' = (
    kept_connection hello_proxy_endpoint (hello_reply net) hello_block hello stays
        (hello_reply-Once hello stays) n w,
    kept_connection compute_nonblocking_endpoint (compute_reply net compute_nonblocking_endpoint)
        compute_block nonblocking stays'
        (compute_reply-Once compute_nonblocking_endpoint nonblocking stays') n w,
    kept_connection compute_thread_pool_endpoint (compute_reply net compute_thread_pool_endpoint)
        compute_block thread_pool stays''
        (compute_reply-Once compute_thread_pool_endpoint thread_pool stays'') n w,
  )
