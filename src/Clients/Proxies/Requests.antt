-- ===== src/Clients/Proxies/Requests.antt =====
-- What the proxies do over a sequence of requests.
use apache_thrift_benchmarki.Prelude.{ℕ, zero, suc, ◌≡◌, refl, ap, List, [], ◌∷◌, ◌++◌, length}
use apache_thrift_benchmarki.Format.{Text, codes}
use apache_thrift_benchmarki.Clients.{
  Request, Action, done, C, repeat, opened, called, logged, printed, responded, closed,
}
use apache_thrift_benchmarki.Clients.Load.Runs.{unique_id, ones_list}

-- The actions of several requests, by the texts that come back.
abbrev pub blocks : (Text → List Action) → List Text → List Action
blocks block [] = []
blocks block (t ∷ texts) = block t ++ blocks block texts

module _ {W : Type 0} where
  -- Where `P` holds the part ends, with `block t` done for some text `t`, and `P` holds again.
  abbrev pub Once : (W → Type 0) → C W (Unit {0}) → (Text → List Action) → Type 0
  Once P m block = (w : W) → P w → (w' : W) × (t : Text) × (m w ≡ (done tt, (w', block t))) × P w'

  -- `n` requests that end.
  abbrev pub Ended : W → C W (Unit {0}) → ℕ → List Action → (Text → List Action) → Type 0
  Ended w m n before block =
      (w' : W) × (texts : List Text) × (repeat n m w
        ≡ (done tt, (w', before ++ blocks block texts)))
      × (length texts ≡ n)

  pub repeat-blocks :
      (P : W → Type 0) (m : C W (Unit {0})) (block : Text → List Action)
      → Once P m block
      → (n : ℕ) (w : W) → P w
      → Ended w m n [] block
  unfolding repeat
  repeat-blocks P m block once zero w p = (w, [], refl, refl)
  repeat-blocks P m block once (suc n) w p =
      let (w', t, e, p') = once w p in
      let (w'', texts, e', same) = repeat-blocks P m block once n w' p' in
      (w'', t ∷ texts, rw (e, repeat) (rw e' refl), ap suc same)

-- What a request makes the proxies do, by the text that comes back.
abbrev pub id_thread_pool_block : Text → List Action
id_thread_pool_block t = opened ∷ called unique_id ∷ logged ∷ responded t ∷ []

abbrev pub id_nonblocking_block : Text → List Action
id_nonblocking_block t = opened ∷ called unique_id ∷ responded t ∷ []

abbrev pub id_threaded_block : Text → List Action
id_threaded_block t = opened ∷ called unique_id ∷ closed ∷ responded t ∷ []

abbrev pub compute_threaded_block : Text → List Action
compute_threaded_block t =
    opened ∷ called ones_list ∷ logged ∷ responded (codes "Finished Compute") ∷ closed ∷ []

abbrev pub hello_block : Text → List Action
hello_block t = called Request.hello_world ∷ logged ∷ printed t ∷ responded t ∷ []

abbrev pub compute_block : Text → List Action
compute_block t = called ones_list ∷ logged ∷ responded (codes "Finished Compute") ∷ []
