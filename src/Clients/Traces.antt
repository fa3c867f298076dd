-- ===== src/Clients/Traces.antt =====
-- What a part of a client does, whatever state the network is in.
use apache_thrift_benchmarki.Prelude.{
  ℕ, zero, suc, ◌+◌, ◌<◌, ◌≡◌, refl, sym, arith, Bool, true, false, List, [], ◌∷◌, ◌++◌, some,
}
use mathlib.Core.Path.{subst}
use apache_thrift_benchmarki.Prelude.Int.{pos, eq_ℤ}
use apache_thrift_benchmarki.Format.{Text}
use apache_thrift_benchmarki.Endpoints.{Endpoint}
use apache_thrift_benchmarki.Clients.{
  Request, Action, Network, done, C, ◌>>=◌, return, act, repeat, open_transport, ask, opened,
  called,
}
use apache_thrift_benchmarki.Clients.Load.{rounds, repeat_with}

-- `f c`, `f (c + 1)`, …, `n` of them.
abbrev pub span : (ℕ → List Action) → ℕ → ℕ → List Action
span f zero c = []
span f (suc n) c = f c ++ span f n (c + 1)

abbrev pub times : ℕ → List Action → List Action
times zero actions = []
times (suc n) actions = actions ++ times n actions

plus_one : (c n : ℕ) → c + 1 + n ≡ c + suc n
plus_one c n = omega arith

zero_plus : (n : ℕ) → 0 + n ≡ n
zero_plus n = omega arith

plus_none : (c : ℕ) → c + 0 ≡ c
plus_none c = omega arith

counter_reached : (c : ℕ) → eq_ℤ (pos c) (pos (c + 0)) ≡ true
counter_reached c = ground arith

counter_short : (c n : ℕ) → eq_ℤ (pos c) (pos (c + suc n)) ≡ false
counter_short c n = ground arith

module _ {W : Type 0} where
  -- The part ends with `a` and has then done `actions`.
  abbrev pub Gives : {A : Type 0} → C W A → A → List Action → Type 0
  Gives m a actions = (w : W) → (w' : W) × (m w ≡ (done a, (w', actions)))

  pub Gives-then :
      {A B : Type 0} (m : C W A) (f : A → C W B) {a : A} {b : B} {s t : List Action}
      → Gives m a s
      → Gives (f a) b t
      → Gives (m >>= f) b (s ++ t)
  Gives-then m f {a} {b} {s} {t} g h w =
      let (w', e) = g w in let (w'', e') = h w' in (w'', rw e (rw e' refl))

  pub Gives-act : (action : Action) → Gives (act action) tt (action ∷ [])
  Gives-act action w = (w, refl)

  pub Gives-return : {A : Type 0} (a : A) → Gives (return a) a []
  Gives-return a w = (w, refl)

  pub Gives-repeat :
      (n : ℕ) (body : C W (Unit {0})) {s : List Action}
      → Gives body tt s
      → Gives (repeat n body) tt (times n s)
  unfolding repeat
  Gives-repeat zero body g = λ w. (w, refl)
  Gives-repeat (suc n) body g = Gives-then body (λ _. repeat n body) g (Gives-repeat n body g)

  Gives-repeat_with :
      (n : ℕ) (body : ℕ → C W ℕ) (f : ℕ → List Action) (c : ℕ)
      → ((c : ℕ) → Gives (body c) (c + 1) (f c))
      → Gives (repeat_with n body c) (c + n) (span f n c)
  unfolding repeat_with
  Gives-repeat_with zero body f c g = λ w. (w, rw (plus_none c) refl)
  Gives-repeat_with (suc n) body f c g =
      subst (λ k. Gives (repeat_with (suc n) body c) k (span f (suc n) c)) (plus_one c n)
        (Gives-then (body c) (repeat_with n body) (g c) (Gives-repeat_with n body f (c + 1) g))

  Gives-rounds :
      (fuel n : ℕ) (round : ℕ → C W (Unit {0})) (f : ℕ → List Action) (c : ℕ)
      → n < fuel
      → ((c : ℕ) → Gives (round c) tt (f c))
      → Gives (rounds fuel (pos (c + n)) round c) tt (span f n c)
  unfolding rounds
  Gives-rounds zero n round f c h g = absurd (omega arith)
  Gives-rounds (suc fuel) zero round f c h g = λ w. (w, rw (counter_reached c, rounds) refl)
  Gives-rounds (suc fuel) (suc n) round f c h g = λ w.
      let (w', e) =
        Gives-then (round c) (λ _. rounds fuel (pos (c + 1 + n)) round (c + 1)) (g c)
          (Gives-rounds fuel n round f (c + 1) (omega arith) g) w in
      (w', rw (counter_short c n, rounds) (rw (sym (plus_one c n)) e))

  pub Gives-all_rounds :
      {fuel n : ℕ} (round : ℕ → C W (Unit {0})) (f : ℕ → List Action)
      → n < fuel
      → ((c : ℕ) → Gives (round c) tt (f c))
      → Gives (rounds fuel (pos n) round 0) tt (span f n 0)
  Gives-all_rounds {fuel} {n} round f h g =
      subst (λ k. Gives (rounds fuel (pos k) round 0) tt (span f n 0)) (zero_plus n)
        (Gives-rounds fuel n round f 0 h g)

  pub Gives-all :
      (n : ℕ) (body : ℕ → C W ℕ) (f : ℕ → List Action)
      → ((c : ℕ) → Gives (body c) (c + 1) (f c))
      → Gives (repeat_with n body 0) n (span f n 0)
  Gives-all n body f g =
      subst (λ k. Gives (repeat_with n body 0) k (span f n 0)) (zero_plus n)
        (Gives-repeat_with n body f 0 g)

module _ {W : Type 0} (net : Network W) where
  -- A server that accepts every connection and answers every such request with a text that `ok` admits.
  pub record Serves (endpoint : Endpoint) (request : Request) (ok : Text → Bool) : Type 0 where
    pub opens : (w : W) → (net.open_at endpoint w).0 ≡ true
    pub answers :
        (w : W) → (t : Text) × ((net.answer endpoint request w).0 ≡ some t) × (ok t ≡ true)

  pub Gives-open :
      {endpoint : Endpoint} {request : Request} {ok : Text → Bool}
      → Serves endpoint request ok
      → Gives (open_transport net endpoint) tt (opened ∷ [])
  Gives-open {endpoint} serves w = ((net.open_at endpoint w).1, rw (serves.opens w) refl)

  -- What follows a call that is answered.
  pub Gives-ask :
      {endpoint : Endpoint} {request : Request} {ok : Text → Bool}
      → Serves endpoint request ok
      → {B : Type 0} (f : Text → C W B) {b : B} {s : List Action}
      → ((t : Text) → ok t ≡ true → Gives (f t) b s)
      → Gives (ask net endpoint request >>= f) b (called request ∷ s)
  Gives-ask {endpoint} {request} serves f g w =
      let (t, e, admitted) = serves.answers w in
      let (w', e') = g t admitted (net.answer endpoint request w).1 in (w', rw e (rw e' refl))
