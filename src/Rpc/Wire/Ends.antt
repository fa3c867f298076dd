-- ===== src/Rpc/Wire/Ends.antt =====
-- How a computation over a protocol ends, and what Thrift documents of a protocol.
use apache_thrift_benchmarki.Prelude.{◌≡◌, refl, sym, ◌∙◌, ap, List, [], ◌∷◌, ◌++◌, inl, inr}
use apache_thrift_benchmarki.Format.{Text}
use apache_thrift_benchmarki.Rpc.Wire.{
  proceed, caught, M, Outcome, returned, thrown, Exception, ◌>>=◌, return, throw, try_catch,
  Protocol, Part, Value, Token, token, Val, type_of, encode, field_begin, t_stop,
}
use apache_thrift_benchmarki.Prelude.Int.{pos}
use mathlib.Core.Path.{subst}
use mathlib.Core.List.{append-nil, append_assoc}

-- From every state with P the computation ends with this outcome in a state with Q.
pub record Ends {W A : Type 0} (P : W → Type 0) (m : M W A) (o : Outcome A) (Q : W → Type 0)
    : Type 0 where
  pub at : (w : W) → P w → (w' : W) × (m w ≡ (o, w')) × Q w'

module _ {W A B : Type 0} {P Q : W → Type 0} {m : M W A} where
  pub chain :
      {R : W → Type 0} {a : A} {o : Outcome B} (f : A → M W B)
      → Ends P m (returned a) Q
      → Ends Q (f a) o R
      → Ends P (m >>= f) o R
  unfolding ◌>>=◌
  chain f first second = record {
    at = λ w p.
        let (w', e, q) = first.at w p in
        let (w'', e', r) = second.at w' q in (w'', ap (proceed f) e ∙ e', r);
  }

  pub >>=-thrown :
      {e : Exception} (f : A → M W B) → Ends P m (thrown e) Q → Ends P (m >>= f) (thrown e) Q
  unfolding ◌>>=◌
  >>=-thrown f first = record {
    at = λ w p. let (w', e, q) = first.at w p in (w', ap (proceed f) e, q);
  }

module _ {W A : Type 0} {P Q : W → Type 0} {m : M W A} where
  pub try_catch-returned :
      {a : A} → Ends P m (returned a) Q → Ends P (try_catch m) (returned (inl a)) Q
  unfolding try_catch
  try_catch-returned first = record {
    at = λ w p. let (w', e, q) = first.at w p in (w', ap caught e, q);
  }

  pub try_catch-thrown :
      {x : Exception} → Ends P m (thrown x) Q → Ends P (try_catch m) (returned (inr x)) Q
  unfolding try_catch
  try_catch-thrown first = record {
    at = λ w p. let (w', e, q) = first.at w p in (w', ap caught e, q);
  }

module _ {W : Type 0} {P : W → Type 0} where
  pub return_ends : {A : Type 0} (a : A) → Ends P (return a) (returned a) P
  unfolding return
  return_ends a = record { at = λ w p. (w, refl, p) }

  pub throw_ends : {A : Type 0} (e : Exception) → Ends P (throw {A = A} e) (thrown e) P
  unfolding throw
  throw_ends e = record { at = λ w p. (w, refl, p) }

-- What Thrift documents: `H ts` are the states in which `ts` has been written and not yet read. Its limit
-- on how deep `skip` goes is left out: `skips` is for values of any depth, and for lists whatever
-- types their elements have.
pub record Carries {W D : Type 0} (prot : Protocol W D) (H : List (Token D) → W → Type 0)
    : Type 0 where
  pub writes :
      (part : Part) (name : Text) (v : Value D part) (ts : List (Token D))
      → Ends (H ts) (prot.write part name v) (returned tt) (H (ts ++ token part v ∷ []))
  pub stops :
      (ts : List (Token D))
      → Ends
          (H ts)
          prot.write_field_stop
          (returned tt)
          (H (ts ++ token field_begin (t_stop, pos 0) ∷ []))
  pub reads :
      (part : Part) (v : Value D part) (ts : List (Token D))
      → Ends (H (token part v ∷ ts)) (prot.read part) (returned v) (H ts)
  pub skips :
      (v : Val D) (ts : List (Token D))
      → Ends (H (encode v ts)) (prot.skip (type_of v)) (returned tt) (H ts)
  pub read_ends : (ts : List (Token D)) → Ends (H ts) prot.read_end (returned tt) (H ts)
  pub write_ends : (ts : List (Token D)) → Ends (H ts) prot.write_end (returned tt) (H ts)
  pub flushes : (ts : List (Token D)) → Ends (H ts) prot.flush (returned tt) (H ts)

-- The states in which, once `rest` is written too, `all` has been written.
pub record Lacks {W D : Type 0} (H : List (Token D) → W → Type 0) (all rest : List (Token D))
    (w : W) : Type 0 where
  pub before : List (Token D)
  pub joined : before ++ rest ≡ all
  pub written : H before w

module _ {W D : Type 0} {H : List (Token D) → W → Type 0} where
  pub Lacks-all :
      {w : W} (before rest : List (Token D)) → H before w → Lacks H (before ++ rest) rest w
  Lacks-all before rest h = record { before = before; joined = refl; written = h }

  pub Lacks-none : {w : W} {all : List (Token D)} → Lacks H all [] w → H all w
  Lacks-none {w} l = subst (λ ts. H ts w) (sym (append-nil l.before) ∙ l.joined) l.written

module _ {W D : Type 0} {prot : Protocol W D} {H : List (Token D) → W → Type 0}
    (carries : Carries prot H) {all : List (Token D)} where
  Lacks-less :
      {t : Token D} {m : M W (Unit {0})}
      → ((ts : List (Token D)) → Ends (H ts) m (returned tt) (H (ts ++ t ∷ [])))
      → (rest : List (Token D)) → Ends (Lacks H all (t ∷ rest)) m (returned tt) (Lacks H all rest)
  Lacks-less {t} appends rest = record {
    at = λ w l.
        let (w', e, h) = (appends l.before).at w l.written in
        (
          w',
          e,
          record {
            before = l.before ++ t ∷ [];
            joined = append_assoc l.before (t ∷ []) rest ∙ l.joined;
            written = h;
          },
        );
  }

  Lacks-same :
      {m : M W (Unit {0})}
      → ((ts : List (Token D)) → Ends (H ts) m (returned tt) (H ts))
      → (rest : List (Token D)) → Ends (Lacks H all rest) m (returned tt) (Lacks H all rest)
  Lacks-same keeps rest = record {
    at = λ w l.
        let (w', e, h) = (keeps l.before).at w l.written in
        (w', e, record { before = l.before; joined = l.joined; written = h });
  }

  pub write-Lacks :
      (part : Part) (name : Text) (v : Value D part) (rest : List (Token D))
      → Ends
          (Lacks H all (token part v ∷ rest))
          (prot.write part name v)
          (returned tt)
          (Lacks H all rest)
  write-Lacks part name v rest = Lacks-less (carries.writes part name v) rest

  pub stop-Lacks :
      (rest : List (Token D))
      → Ends
          (Lacks H all (token field_begin (t_stop, pos 0) ∷ rest))
          prot.write_field_stop
          (returned tt)
          (Lacks H all rest)
  stop-Lacks rest = Lacks-less carries.stops rest

  pub write_end-Lacks :
      (rest : List (Token D))
      → Ends (Lacks H all rest) prot.write_end (returned tt) (Lacks H all rest)
  write_end-Lacks rest = Lacks-same carries.write_ends rest

  pub flush-Lacks :
      (rest : List (Token D)) → Ends (Lacks H all rest) prot.flush (returned tt) (Lacks H all rest)
  flush-Lacks rest = Lacks-same carries.flushes rest
