-- ===== src/Clients/Proxies/Fresh.antt =====
-- The proxies that make a transport for each request.
use apache_thrift_benchmarki.Prelude.{ℕ, refl, []}
use apache_thrift_benchmarki.Clients.{Network}
use apache_thrift_benchmarki.Clients.Load.Runs.{any_text, unique_id, ones_list}
use apache_thrift_benchmarki.Clients.Traces.{Serves}
use apache_thrift_benchmarki.Clients.Proxies.{
  id_thread_pool_endpoint, id_nonblocking_endpoint, id_threaded_endpoint, compute_threaded_endpoint,
  id_thread_pool_on_request, id_nonblocking_on_request, id_threaded_on_request,
  compute_threaded_on_request,
}
use apache_thrift_benchmarki.Clients.Proxies.Requests.{
  Once, Ended, repeat-blocks, id_thread_pool_block, id_nonblocking_block, id_threaded_block,
  compute_threaded_block,
}

module _ {W : Type 0} (net : Network W) where
  id_thread_pool_on_request-Once :
      Serves net id_thread_pool_endpoint unique_id any_text
      → Once (λ _. Unit {0}) (id_thread_pool_on_request net) id_thread_pool_block
  unfolding id_thread_pool_on_request
  id_thread_pool_on_request-Once serves w p =
      let (t, e, _) = serves.answers (net.open_at id_thread_pool_endpoint w).1 in
      (
        (net.answer id_thread_pool_endpoint unique_id (net.open_at id_thread_pool_endpoint w).1).1,
        t,
        rw (serves.opens w, id_thread_pool_on_request) (rw e refl),
        tt,
      )

  id_nonblocking_on_request-Once :
      Serves net id_nonblocking_endpoint unique_id any_text
      → Once (λ _. Unit {0}) (id_nonblocking_on_request net) id_nonblocking_block
  unfolding id_nonblocking_on_request
  id_nonblocking_on_request-Once serves w p =
      let (t, e, _) = serves.answers (net.open_at id_nonblocking_endpoint w).1 in
      (
        (net.answer id_nonblocking_endpoint unique_id (net.open_at id_nonblocking_endpoint w).1).1,
        t,
        rw (serves.opens w, id_nonblocking_on_request) (rw e refl),
        tt,
      )

  id_threaded_on_request-Once :
      Serves net id_threaded_endpoint unique_id any_text
      → Once (λ _. Unit {0}) (id_threaded_on_request net) id_threaded_block
  unfolding id_threaded_on_request
  id_threaded_on_request-Once serves w p =
      let (t, e, _) = serves.answers (net.open_at id_threaded_endpoint w).1 in
      (
        (net.answer id_threaded_endpoint unique_id (net.open_at id_threaded_endpoint w).1).1,
        t,
        rw (serves.opens w, id_threaded_on_request) (rw e refl),
        tt,
      )

  compute_threaded_on_request-Once :
      Serves net compute_threaded_endpoint ones_list any_text
      → Once (λ _. Unit {0}) (compute_threaded_on_request net) compute_threaded_block
  unfolding compute_threaded_on_request
  compute_threaded_on_request-Once serves w p =
      let (t, e, _) = serves.answers (net.open_at compute_threaded_endpoint w).1 in
      (
        (net.answer compute_threaded_endpoint ones_list
            (net.open_at compute_threaded_endpoint w).1).1,
        t,
        rw (serves.opens w, compute_threaded_on_request) (rw e refl),
        tt,
      )

  -- Where the server accepts connections and answers every call, the proxies of DSBUniqueIDService
  -- and of the threaded MLInfer open a transport for every one of several requests and answer it,
  -- with the text that came back or with a fixed one; the two threaded ones close each transport,
  -- the other two close none.
  pub fresh_connections :
      (n : ℕ) (w : W)
      → Serves net id_thread_pool_endpoint unique_id any_text
      → Serves net id_nonblocking_endpoint unique_id any_text
      → Serves net id_threaded_endpoint unique_id any_text
      → Serves net compute_threaded_endpoint ones_list any_text
      → Ended w (id_thread_pool_on_request net) n [] id_thread_pool_block
        × Ended w (id_nonblocking_on_request net) n [] id_nonblocking_block
        × Ended w (id_threaded_on_request net) n [] id_threaded_block
        × Ended w (compute_threaded_on_request net) n [] compute_threaded_block
  fresh_connections n w thread_pool nonblocking threaded compute = (
    repeat-blocks (λ _. Unit {0}) _ _ (id_thread_pool_on_request-Once thread_pool) n w tt,
    repeat-blocks (λ _. Unit {0}) _ _ (id_nonblocking_on_request-Once nonblocking) n w tt,
    repeat-blocks (λ _. Unit {0}) _ _ (id_threaded_on_request-Once threaded) n w tt,
    repeat-blocks (λ _. Unit {0}) _ _ (compute_threaded_on_request-Once compute) n w tt,
  )
