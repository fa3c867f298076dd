-- ===== src/Tests/Sessions.antt =====
-- A session of the unique id server over a connection of two queues.
use apache_thrift_benchmarki.Prelude.{ℕ, ◌≡◌, refl, arith, List, [], ◌∷◌, length}
use apache_thrift_benchmarki.Prelude.Int.{ℤ, pos, ◌-ℤ◌}
use apache_thrift_benchmarki.Format.{Text}
use apache_thrift_benchmarki.UniqueId.Process
use apache_thrift_benchmarki.UniqueId.Process.{Process, start}
use apache_thrift_benchmarki.UniqueId.Handler.{Call, thread_pool_compute_unique_id}
use apache_thrift_benchmarki.UniqueId.Uniqueness.{serve}
use apache_thrift_benchmarki.Rpc.Wire.{M, Outcome, returned, thrown, endless, other}
use apache_thrift_benchmarki.Rpc.Wire.Ends.{Ends}
use apache_thrift_benchmarki.Rpc.UniqueId.Session
use apache_thrift_benchmarki.Rpc.UniqueId.Session.{Serving, IsUniqueId, session-Nodup}
use apache_thrift_benchmarki.Tests.Loopback.{Loop, loop_request, loop_response, LoopHolds, loop}
use apache_thrift_benchmarki.Tests.UniqueId.{two_cards, calls}
use mathlib.Core.List.{Nodup}

abbrev Numbering : Type 0
Numbering = Loop Serving ℕ

-- `exit(EXIT_FAILURE)` and undefined behaviour do not come back.
abbrev answered : Process.Outcome Text × Process → List Call → Numbering → Outcome Text × Numbering
answered (Process.returned text, process) later w = (returned text, ((process, later), w.1, w.2))
answered (Process.thrown e, process) later w = (thrown (other []), ((process, later), w.1, w.2))
answered (Process.exit_failure, process) later w = (endless, ((process, later), w.1, w.2))
answered (Process.undefined, process) later w = (endless, ((process, later), w.1, w.2))

abbrev answer_next : Process → List Call → Numbering → Outcome Text × Numbering
answer_next process [] w = (endless, w)
answer_next process (call ∷ later) w = answered (thread_pool_compute_unique_id call process) later w

abbrev number : ℤ → M Numbering Text
number id w = answer_next w.0.0 w.0.1 w

answered-returned :
    (r : Process.Outcome Text × Process) (later : List Call) (w : Numbering) {text : Text}
    → r.0 ≡ Process.returned text
    → answered r later w ≡ (returned text, ((r.1, later), w.1, w.2))
answered-returned (Process.returned t, process) later w h = cc
answered-returned (Process.thrown e, process) later w h = cc
answered-returned (Process.exit_failure, process) later w h = cc
answered-returned (Process.undefined, process) later w h = cc

IsUniqueId-number : IsUniqueId LoopHolds number
IsUniqueId-number process call later id text e = record {
  at = λ w h. (
    _,
    rw h (
        answered-returned (thread_pool_compute_unique_id call process) later
          ((process, call ∷ later), [], []) e),
    refl,
  );
}

abbrev asked : List ℤ
asked = pos 1 ∷ pos 1 ∷ pos 2 ∷ []

session-Nodup_example :
    (texts : List Text) × Ends
      (LoopHolds (start, calls) [] [])
      (Session.session loop_request loop_response 2 number asked)
      (returned texts)
      (LoopHolds ((serve calls start).1, []) [] [])
    × (length texts ≡ length asked)
    × Nodup texts
unfolding ◌-ℤ◌
session-Nodup_example =
    session-Nodup loop 2 (omega arith) number IsUniqueId-number two_cards asked calls refl
      (refl, (refl, (refl, tt))) (omega arith)
