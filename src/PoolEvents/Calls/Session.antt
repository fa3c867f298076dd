-- ===== src/PoolEvents/Calls/Session.antt =====
-- A connection of the thread pool from its start to its end.
use apache_thrift_benchmarki.Prelude.{
  ℕ, zero, suc, ◌+◌, ◌^◌, ◌<◌, ◌≡◌, refl, ap, ◌∙◌, List, [], ◌∷◌, none, some, arith, get_elem?,
  length,
}
use mathlib.Core.Path.{ap₂}
use apache_thrift_benchmarki.Prelude.Lists.{set, get_elem?-set_self}
use apache_thrift_benchmarki.PoolEvents.{
  ThreadManager, Pool, print_stats, shrink, create_context, free, delete_context,
}
use apache_thrift_benchmarki.PoolEvents.Calls.{
  Event, create, process, delete, get_elem?-length, get_elem?-lt, handle, grow-cells, shrink-cells,
  create_context-cells, process_context-cells, run,
}

module _ {T : Type 0} (t_man : ThreadManager T) (t_min t_max : ℕ) where
  -- The calls of one connection, and its end.
  abbrev pub session : ℕ → ℕ → List Event
  session ctx zero = delete ctx ∷ []
  session ctx (suc calls) = process ctx ∷ session ctx calls

  free-live :
      (ctx n : ℕ) (s : Pool T)
      → get_elem? s.cells ctx ≡ some (some n)
      → (s' : Pool T) × (free t_man ctx s ≡ some s') × (s'.cells ≡ set s.cells ctx none)
  unfolding free
  free-live ctx n s live = (record s { cells = set s.cells ctx none }, ground arith, refl)

  delete_live :
      (ctx n : ℕ) (s : Pool T)
      → get_elem? s.cells ctx ≡ some (some n)
      → (s' : Pool T) × (delete_context t_man t_min ctx s ≡ some s')
        × (s'.cells ≡ set s.cells ctx none)
  unfolding delete_context
  delete_live ctx n s live =
      let same = shrink-cells t_man t_min t_max (print_stats t_man "  delete   " 1 s) in
      let (s', freed, cells) =
        free-live ctx n (shrink t_man t_min (print_stats t_man "  delete   " 1 s))
          (ap (λ cs. get_elem? cs ctx) same ∙ live) in
      (s', freed, cells ∙ ap (λ cs. set cs ctx none) same)

  session_total :
      (ctx calls n : ℕ) (s : Pool T)
      → get_elem? s.cells ctx ≡ some (some n)
      → n + calls < 2 ^ 31
      → (s' : Pool T) × (run t_man t_min t_max (session ctx calls) s ≡ some s')
        × (get_elem? s'.cells ctx ≡ some none)
  unfolding run handle
  session_total ctx zero n s live room =
      let (s', deleted, cells) = delete_live ctx n s live in
      (
        s',
        rw deleted,
        ap (λ cs. get_elem? cs ctx) cells
            ∙ get_elem?-set_self s.cells ctx none (get_elem?-lt s.cells ctx live),
      )
  session_total ctx (suc calls) n s live room =
      let (q, went, cells, printed) =
        process_context-cells t_man t_min t_max ctx n s live (omega arith) in
      let (s', ran, gone) =
        session_total ctx calls (n + 1) q
          (ap (λ cs. get_elem? cs ctx) cells
            ∙ get_elem?-set_self s.cells ctx (some (n + 1)) (get_elem?-lt s.cells ctx live))
          (omega arith) in
      (s', rw went ran, gone)

  create_context-address : (s : Pool T) → (create_context t_man t_max s).0 ≡ length s.cells
  unfolding create_context
  create_context-address s =
      ap length (grow-cells t_man t_min t_max (print_stats t_man "  create   " 0 s))

  -- A connection that makes fewer than 2 ^ 31 calls and ends finds its context at each of them,
  -- from a pool in any state, and leaves it deleted.
  pub session_ends :
      (calls : ℕ) (s : Pool T)
      → calls < 2 ^ 31
      → let ctx = (create_context t_man t_max s).0 in
        (s' : Pool T) × (run t_man t_min t_max (create ∷ session ctx calls) s ≡ some s')
        × (get_elem? s'.cells ctx ≡ some none)
  unfolding run handle
  session_ends calls s few =
      session_total (create_context t_man t_max s).0 calls 0 (create_context t_man t_max s).1 fresh
        (omega arith)
    where
      fresh :
          get_elem? (create_context t_man t_max s).1.cells (create_context t_man t_max s).0
          ≡ some (some 0)
      fresh =
          ap₂ get_elem? (create_context-cells t_man t_min t_max s) (create_context-address s)
          ∙ get_elem?-length s.cells (some 0)
