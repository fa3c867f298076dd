-- ===== src/PoolEvents/Size.antt =====
-- The number of worker threads, however the events overlap.
use apache_thrift_benchmarki.Prelude.{
  ℕ, suc, ◌+◌, ◌≤◌, ◌<◌, ◌≡◌, refl, ap, List, [], ◌∷◌, ◌++◌, Option, none, some, arith,
  Option-cases, inl, inr, length,
}
use mathlib.Core.Path.{subst}
use apache_thrift_benchmarki.PoolEvents.{
  ThreadManager, IsThreadManager, Pool, free, process_context,
}
use apache_thrift_benchmarki.PoolEvents.Steps.{
  Phase, create_begin, check_idle, check_limit, adding, added, new_int, finished, delete_begin,
  read_idle, check_half, check_min, removing, removed, freeing, advance, Overlap, Step, connects,
  disconnects, moves, leaves, calls, works, Reach, here, next,
}

-- A worker that the handler is about to add, and one that it is about to remove.
abbrev pub adds : Phase → ℕ
adds adding = 1
adds _ = 0

abbrev pub removes : Phase → ℕ
removes (removing ctx) = 1
removes _ = 0

abbrev pub total : (Phase → ℕ) → List Phase → ℕ
total f [] = 0
total f (phase ∷ phases) = f phase + total f phases

total-insert :
    (f : Phase → ℕ) (before : List Phase) (phase : Phase) (later : List Phase)
    → total f (before ++ phase ∷ later) ≡ f phase + total f (before ++ later)
total-insert f [] phase later = refl
total-insert f (p ∷ before) phase later = omega (arith, total-insert f before phase later)

length-insert :
    (before : List Phase) (phase : Phase) (later : List Phase)
    → length (before ++ phase ∷ later) ≡ suc (length (before ++ later))
length-insert [] phase later = refl
length-insert (p ∷ before) phase later = ap suc (length-insert before phase later)

adds-le : (phases : List Phase) → total adds phases ≤ length phases
adds-le [] = omega arith
adds-le (adding ∷ phases) = omega (arith, adds-le phases)
adds-le (phase ∷ phases) = omega (arith, adds-le phases)

removes-le : (phases : List Phase) → total removes phases ≤ length phases
removes-le [] = omega arith
removes-le (removing ctx ∷ phases) = omega (arith, removes-le phases)
removes-le (phase ∷ phases) = omega (arith, removes-le phases)

module _ {T : Type 0} (t_man : ThreadManager T) where
  open t_man use {worker_count, idle_worker_count, add_worker, remove_worker}

  abbrev pub size : Pool T → ℕ
  size s = worker_count s.manager

  module _ (laws : IsThreadManager t_man) (t_min t_max others : ℕ) where
    -- The workers with those that are about to be added, and without those about to be removed.
    record Within (add remove n : ℕ) : Type 0 where
      bounded : n + add ≤ t_max + others
      enough : t_min + remove ≤ n + others

    -- The same behind one operation, where it is defined.
    abbrev After : ℕ → ℕ → Option (Phase × Pool T) → Type 0
    After add remove none = Unit {0}
    After add remove (some (phase, s)) = Within (adds phase + add) (removes phase + remove) (size s)

    free-manager :
        (s : Pool T) {s' : Pool T} (ctx : ℕ) → free t_man ctx s ≡ some s' → s'.manager ≡ s.manager
    unfolding free
    free-manager s ctx h = ground arith

    process_context-manager :
        (s : Pool T) {s' : Pool T} (ctx : ℕ)
        → process_context t_man ctx s ≡ some s'
        → s'.manager ≡ s.manager
    unfolding process_context
    process_context-manager s ctx h = ground arith

    advance-Within :
        (phase : Phase) (s : Pool T) (add remove : ℕ)
        → add ≤ others
        → remove ≤ others
        → Within (adds phase + add) (removes phase + remove) (size s)
        → After add remove (advance t_man t_min t_max phase s)
    unfolding advance
    advance-Within create_begin s add remove few few' v = v
    advance-Within check_idle s add remove few few' v = ground (arith, v)
    advance-Within check_limit s add remove few few' v = ground (arith, v)
    advance-Within adding s add remove few few' v = record {
      bounded = omega (arith, v.bounded, laws.adds s.manager);
      enough = omega (arith, v.enough, laws.adds s.manager);
    }
    advance-Within added s add remove few few' v = v
    advance-Within new_int s add remove few few' v = v
    advance-Within finished s add remove few few' v = v
    advance-Within (delete_begin ctx) s add remove few few' v = v
    advance-Within (read_idle ctx) s add remove few few' v = v
    advance-Within (check_half ctx idle) s add remove few few' v = ground (arith, v)
    advance-Within (check_min ctx) s add remove few few' v = ground (arith, v)
    advance-Within (removing ctx) s add remove few few' v =
        ground (arith, v, laws.removes s.manager)
    advance-Within (removed ctx) s add remove few few' v = v
    advance-Within (freeing ctx) s add remove few few' v = elim (Option-cases (free t_man ctx s)) [
      | inl gone ↦ rw gone tt
      | inr (s', e) ↦ rw e (record {
        bounded = omega (arith, v.bounded, ap worker_count (free-manager s ctx e));
        enough = omega (arith, v.enough, ap worker_count (free-manager s ctx e));
      })
    ]

    pub record Keeps (u : Overlap t_man t_min t_max) : Type 0 where
      fewer : length u.phases < others + 2
      within : Within (total adds u.phases) (total removes u.phases) (size u.pool)

    -- The events other than one that is being handled.
    moved :
        (u : Overlap t_man t_min t_max) (before later : List Phase) (phase : Phase)
        → u.phases ≡ before ++ phase ∷ later
        → Keeps u
        → (length (before ++ later) ≤ others)
          × Within
              (adds phase + total adds (before ++ later))
              (removes phase + total removes (before ++ later))
              (size u.pool)
    moved u before later phase e v = (
      omega (arith, v.fewer, ap length e, length-insert before phase later),
      record {
        bounded =
            omega
              (arith, v.within.bounded, ap (total adds) e, total-insert adds before phase later);
        enough =
            omega (
              arith,
              v.within.enough,
              ap (total removes) e,
              total-insert removes before phase later,
            );
      },
    )

    no_more : {add remove n : ℕ} → Within add remove n → Within (0 + add) (0 + remove) n
    no_more v = record { bounded = omega (arith, v.bounded); enough = omega (arith, v.enough) }

    Step-Keeps :
        {u w : Overlap t_man t_min t_max}
        → Step t_man t_min t_max u w
        → length w.phases < others + 2
        → Keeps u
        → Keeps w
    Step-Keeps connects few v = record { fewer = few; within = no_more v.within }
    Step-Keeps (disconnects ctx) few v = record { fewer = few; within = no_more v.within }
    Step-Keeps {u} (moves before later phase phase' {pool'} e h) few v =
        let (fewer, within) = moved u before later phase e v in
        let after : Within (adds phase' + total adds (before ++ later))
            (removes phase' + total removes (before ++ later)) (size pool') =
          subst (After (total adds (before ++ later)) (total removes (before ++ later))) h (
            advance-Within phase u.pool _ _ (omega (arith, fewer, adds-le (before ++ later)))
              (omega (arith, fewer, removes-le (before ++ later))) within) in
        record {
          fewer = few;
          within = record {
            bounded = omega (arith, after.bounded, total-insert adds before phase' later);
            enough = omega (arith, after.enough, total-insert removes before phase' later);
          };
        }
    Step-Keeps {u} (leaves before later e) few v =
        let (fewer, within) = moved u before later finished e v in
        record {
          fewer = few;
          within = record {
            bounded = omega (arith, within.bounded);
            enough = omega (arith, within.enough);
          };
        }
    Step-Keeps {u} (calls ctx h) few v = record {
      fewer = few;
      within = record {
        bounded =
            omega (arith, v.within.bounded, ap worker_count (process_context-manager u.pool ctx h));
        enough =
            omega (arith, v.within.enough, ap worker_count (process_context-manager u.pool ctx h));
      };
    }
    Step-Keeps (works t e) few v = record {
      fewer = few;
      within = record {
        bounded = omega (arith, v.within.bounded, e);
        enough = omega (arith, v.within.enough, e);
      };
    }

    Reach-Keeps :
        {u w : Overlap t_man t_min t_max} → Reach t_man t_min t_max others u w → Keeps u → Keeps w
    Reach-Keeps here v = v
    Reach-Keeps (next r st few) v = Step-Keeps st few (Reach-Keeps r v)

    -- However the operations of overlapping createContext and deleteContext calls fall between each
    -- other, and calls and work between them: over a thread manager that keeps its documented laws,
    -- from a pool with a number of workers between t_min and t_max and no event under way, if no
    -- event is ever handled at once with more than some number of others, the workers are never
    -- more than that number below t_min or above t_max: they stay between the two where one event
    -- is handled at a time.
    pub Reach-Within :
        {w : Overlap t_man t_min t_max} (s : Pool T)
        → t_min ≤ size s
        → size s ≤ t_max
        → Reach t_man t_min t_max others (record { phases = []; pool = s }) w
        → (t_min ≤ size w.pool + others) × (size w.pool ≤ t_max + others)
    Reach-Within s enough bounded r =
        let v = Reach-Keeps r (record {
          fewer = omega arith;
          within = record { bounded = omega (arith, bounded); enough = omega (arith, enough) };
        }) in
        (omega (arith, v.within.enough), omega (arith, v.within.bounded))
