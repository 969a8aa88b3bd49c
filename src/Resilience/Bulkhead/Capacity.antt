-- ===== src/Resilience/Bulkhead/Capacity.antt =====
-- How many callers run and wait at once.
use benzene_go.Prelude.{ℕ, refl, sym, List, [], arith, ◌+◌, ◌≤◌, ◌<◌, ◌≡◌, ◌∙◌, ◌∷◌, ◌++◌}
use benzene_go.Resilience.Bulkhead.{
  Options, Phase, waiting, running, released, cancelled, Pool, admit_cap, Move, admitted, refused,
  starts, cancels, ends, leaves, leaves_queue, Step, arrive, move, Reach, start, next,
}

-- Whether a caller holds an execution permit, and an admission permit.
abbrev pub runs : Phase → ℕ
runs running = 1
runs _ = 0

abbrev pub holds : Phase → ℕ
holds waiting = 1
holds running = 1
holds released = 1
holds cancelled = 1
holds _ = 0

pub sum_of : (Phase → ℕ) → List Phase → ℕ
sum_of f [] = 0
sum_of f (p ∷ ps) = f p + sum_of f ps

sum_of-middle :
    (f : Phase → ℕ) (before after : List Phase) (p : Phase)
    → sum_of f (before ++ p ∷ after) ≡ f p + (sum_of f before + sum_of f after)
unfolding sum_of
sum_of-middle f [] after p = omega arith
sum_of-middle f (q ∷ before) after p = omega (arith, sum_of-middle f before after p)

module _ (o : Options) where
  pub record IsSafe (s : Pool) : Type 0 where
    pub exec_exact : s.exec ≡ sum_of runs s.callers
    pub admit_exact : s.admit ≡ sum_of holds s.callers
    pub exec_capped : s.exec ≤ o.max_concurrency
    pub admit_capped : s.admit ≤ admit_cap o

  -- A move changes each counter as it changes what the caller holds.
  Move-balance :
      {p q : Phase} {a e a' e' : ℕ} (x y : ℕ)
      → Move o p a e q a' e'
      → a ≡ holds p + x
      → e ≡ runs p + y
      → e ≤ o.max_concurrency
      → a ≤ admit_cap o
      → (a' ≡ holds q + x) × (e' ≡ runs q + y) × (e' ≤ o.max_concurrency) × (a' ≤ admit_cap o)
  Move-balance x y (admitted lt) ha he ce ca = omega arith
  Move-balance x y (refused le) ha he ce ca = omega arith
  Move-balance x y (starts lt) ha he ce ca = omega arith
  Move-balance x y cancels ha he ce ca = omega arith
  Move-balance x y ends ha he ce ca = omega arith
  Move-balance x y leaves ha he ce ca = omega arith
  Move-balance x y leaves_queue ha he ce ca = omega arith

  Step-IsSafe : {s t : Pool} → Step o s t → IsSafe s → IsSafe t
  unfolding sum_of
  Step-IsSafe arrive h = record {
    exec_exact = omega (arith, h);
    admit_exact = omega (arith, h);
    exec_capped = h.exec_capped;
    admit_capped = h.admit_capped;
  }
  Step-IsSafe (move {p} {q} before after m) h =
      let (ha, he, ce, ca) =
        Move-balance (sum_of holds before + sum_of holds after)
          (sum_of runs before + sum_of runs after) m
          (h.admit_exact ∙ sum_of-middle holds before after p)
          (h.exec_exact ∙ sum_of-middle runs before after p) h.exec_capped h.admit_capped in
      record {
        exec_exact = he ∙ sym (sum_of-middle runs before after q);
        admit_exact = ha ∙ sym (sum_of-middle holds before after q);
        exec_capped = ce;
        admit_capped = ca;
      }

  -- In every interleaving of callers, from the empty pool, at most `maxConcurrency` callers run
  -- and at most `maxConcurrency` + `maxQueue` hold an admission permit, and the two counters say
  -- exactly how many do.
  pub Reach-IsSafe : {s : Pool} → Reach o s → IsSafe s
  unfolding sum_of
  Reach-IsSafe start = record {
    exec_exact = refl;
    admit_exact = refl;
    exec_capped = omega arith;
    admit_capped = omega arith;
  }
  Reach-IsSafe (next r st) = Step-IsSafe st (Reach-IsSafe r)

  -- With no queue, an admitted caller finds an execution permit at once.
  runs-le-holds : (ps : List Phase) → sum_of runs ps ≤ sum_of holds ps
  unfolding sum_of
  runs-le-holds [] = omega arith
  runs-le-holds (p ∷ ps) = ground (arith, runs-le-holds ps)

  -- With no queue, in every reachable pool in which a caller is admitted and waits, an execution
  -- permit is free.
  pub no_queue-no_wait :
      (before after : List Phase) (a e : ℕ)
      → o.max_queue ≡ 0
      → Reach o (record { admit = a; exec = e; callers = before ++ waiting ∷ after })
      → e < o.max_concurrency
  no_queue-no_wait before after a e no_queue r =
      let h = Reach-IsSafe r in
      omega (
        arith,
        h.exec_exact,
        h.admit_exact,
        h.admit_capped,
        sum_of-middle runs before after waiting,
        sum_of-middle holds before after waiting,
        runs-le-holds before,
        runs-le-holds after,
      )
