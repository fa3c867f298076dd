-- ===== src/Rpc/Terminal.antt =====
-- What the programs with a console share: the lines that are typed and those that are shown, beside the
-- state of the network. The lines are those of dump/nonblocking/nb_client.cpp.
use mathlib.Core.List.{append-nil, append_assoc}
use mathlib.Core.Path.{ap₂}
use apache_thrift_benchmarki.Prelude.{
  ◌≡◌, refl, sym, ap, ◌∙◌, Bool, true, false, List, [], ◌∷◌, ◌++◌, ◌==◌,
}
use apache_thrift_benchmarki.Format.{Text}
use apache_thrift_benchmarki.Clients.Single.{Console, getline}
use apache_thrift_benchmarki.Rpc.Wire.{M, Outcome, returned}
use apache_thrift_benchmarki.Rpc.Wire.Ends.{Ends}

-- Standard input and output.
pub record Terminal : Type 0 where
  pub console : Console
  pub output : List Text

abbrev pub beside : {W A : Type 0} → Terminal → Outcome A × W → Outcome A × (W × Terminal)
beside terminal (o, w) = (o, (w, terminal))

-- What leaves the terminal alone.
unfoldable pub off_screen : {W A : Type 0} → M W A → M (W × Terminal) A
off_screen m w = beside w.1 (m w.0)

unfoldable pub show_line : {W : Type 0} → Text → M (W × Terminal) (Unit {0})
show_line text w = (Outcome.returned tt, (w.0, record w.1 { output = w.1.output ++ text ∷ [] }))

-- `std::getline(std::cin, input)`
unfoldable pub read_line : {W : Type 0} → Text → M (W × Terminal) Text
unfolding getline
read_line input w =
    let (input', console) = getline w.1.console input in
    (Outcome.returned input', (w.0, record w.1 { console = console }))

-- `input[0] == 'q'`; the character behind an empty text is 0.
abbrev pub starts_with_q : Text → Bool
starts_with_q [] = false
starts_with_q (c ∷ s) = c == b'q'

-- The states in which the network has P, these lines are still to be read, and once `rest` is shown
-- too, `all` has been shown.
pub record Sits {W : Type 0} (P : W → Type 0) (lines all rest : List Text) (w : W × Terminal)
    : Type 0 where
  pub net : P w.0
  pub typed : w.1.console ≡ record { lines = lines; good = true }
  pub shown : w.1.output ++ rest ≡ all

module _ {W : Type 0} {P : W → Type 0} {all : List Text} where
  pub off_screen_ends :
      {A : Type 0} {Q : W → Type 0} {m : M W A} {o : Outcome A} (lines rest : List Text)
      → Ends P m o Q
      → Ends (Sits P lines all rest) (off_screen m) o (Sits Q lines all rest)
  unfolding off_screen
  off_screen_ends lines rest ends = record {
    at = λ w h.
        let (w', e, q) = ends.at w.0 h.net in
        ((w', w.1), ap (beside w.1) e, record { net = q; typed = h.typed; shown = h.shown });
  }

  pub show_line_ends :
      (lines : List Text) (text : Text) (rest : List Text)
      → Ends (Sits P lines all (text ∷ rest)) (show_line text) (returned tt) (Sits P lines all rest)
  unfolding show_line
  show_line_ends lines text rest = record {
    at = λ w h. (
      _,
      refl,
      record {
        net = h.net;
        typed = h.typed;
        shown = append_assoc w.1.output (text ∷ []) rest ∙ h.shown;
      },
    );
  }

  pub read_line_ends :
      (line : Text) (lines rest : List Text) (input : Text)
      → Ends
          (Sits P (line ∷ lines) all rest)
          (read_line input)
          (returned line)
          (Sits P lines all rest)
  unfolding read_line getline
  read_line_ends line lines rest input = record {
    at = λ w h. (
      (w.0, record w.1 { console = record { lines = lines; good = true } }),
      ap (λ console. read_line input (w.0, record w.1 { console = console })) h.typed,
      record { net = h.net; typed = refl; shown = h.shown },
    );
  }

-- The states in which the network has P, and these lines are still to be read and these shown.
abbrev pub At : {W : Type 0} → (W → Type 0) → List Text → List Text → W × Terminal → Type 0
At P lines output w =
    P w.0 × (w.1 ≡ record { console = record { lines = lines; good = true }; output = output })

pub seated :
    {W : Type 0} {P Q : W → Type 0} {lines later before : List Text} {o : Outcome (Unit {0})}
    {m : M (W × Terminal) (Unit {0})} (new : List Text)
    → Ends (Sits P lines (before ++ new) new) m o (Sits Q later (before ++ new) [])
    → Ends (At P lines before) m o (At Q later (before ++ new))
seated new ends = record {
  at = λ w h.
      let (w', e, sits) = ends.at w (record {
        net = h.0;
        typed = ap (λ t. t.console) h.1;
        shown = ap (λ t. t.output ++ new) h.1;
      }) in
      (
        w',
        e,
        (
          sits.net,
          ap₂ (λ c out. record { console = c; output = out }) sits.typed
              (sym (append-nil w'.1.output) ∙ sits.shown),
        ),
      );
}
