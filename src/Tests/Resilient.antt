-- ===== src/Tests/Resilient.antt =====
-- Retries of a call that fails once, and a bulkhead with one permit.
use benzene_go.Prelude.{
  ℕ, refl, true, false, not, none, some, [], arith, ltb, ◌+◌, ◌*◌, ◌≤◌, ◌<◌, ◌∷◌, if◌then◌else◌,
  ◌==◌, string_eq, nat_eq,
}
use benzene_go.Flow.{ret, message}
use benzene_go.Pipeline.{Next}
use benzene_go.Resilience.Retry.{Config, retry, Floats}
use benzene_go.Resilience.Retry.Attempts.{Attempts, retry-Attempts, FloatLaws}
use benzene_go.Resilience.Bulkhead.{
  Options, Pool, Reach, start, next, arrive, move, admitted, starts, running,
}
use benzene_go.Resilience.Bulkhead.Capacity.{IsSafe, Reach-IsSafe, no_queue-no_wait}
use benzene_go.Tests.Routing.{ctx, begun}

abbrev config : Config (Unit {0}) ℕ ℕ
config = record {
  retries = 2;
  initial_delay = 100;
  grow = λ d. d + d;
  max_delay = 0;
  retry_on_error = λ err. true;
  retry_on_result = λ r. false;
  jitter = λ d s. (ret d, s);
  sleep = λ c d s. (ret none, s);
}

abbrev second_time : Next (Unit {0}) ℕ ℕ
second_time c s = (
  (if s.world == 0 then ret (some (message "not yet")) else ret none),
  record s { world = s.world + 1 },
)

retry-Attempts_example :
    (n : ℕ) × Attempts config ctx second_time 2 100 begun n
      (retry config ctx second_time begun).0
      (retry config ctx second_time begun).1
    × (n ≤ 2 + 1)
retry-Attempts_example = retry-Attempts config ctx second_time begun

-- Exact numbers behave as `float64` does where the law speaks of them.
abbrev exact : Floats
exact = record {
  Float = ℕ;
  from_int = λ n. n;
  to_int = λ n. n;
  times = λ a b. a * b;
  at_least = λ a b. not (ltb a b);
}

exact_laws : FloatLaws exact
exact_laws = record { to_int_below = λ x h. ground arith }

abbrev one_at_a_time : Options
one_at_a_time = record {
  max_concurrency = 1;
  max_queue = 0;
  reject_status = "service-unavailable";
  reject_messages = [];
}

abbrev occupied : Pool
occupied = record { admit = 1; exec = 1; callers = running ∷ [] }

occupied-Reach : Reach one_at_a_time occupied
occupied-Reach =
    next (next (next start arrive) (move [] [] (admitted (omega arith))))
      (move [] [] (starts (omega arith)))

Reach-IsSafe_example : IsSafe one_at_a_time occupied
Reach-IsSafe_example = Reach-IsSafe one_at_a_time occupied-Reach

no_queue-no_wait_example : 0 < 1
no_queue-no_wait_example =
    no_queue-no_wait one_at_a_time [] [] 1 0 refl
      (next (next start arrive) (move [] [] (admitted (omega arith))))
