-- ===== src/Resilience/Bulkhead.antt =====
-- resilience/bulkhead.go: callers that contend for two pools of permits, as interleaved steps.
-- The two channels of the source are counters with a capacity: a send is an increment below the
-- capacity, a receive a decrement.
pub mod Capacity
use benzene_go.Prelude.{ℕ, String, List, [], ltb, ◌+◌, ◌-◌, ◌≤◌, ◌<◌, ◌∷◌, ◌++◌, if◌then◌else◌}
use benzene_go.Flow.{Flow, ret, panic}
use benzene_go.Status.{Status}
use benzene_go.Result.{Result, fail}

pub record Options : Type 0 where
  pub max_concurrency : ℕ
  pub max_queue : ℕ
  pub reject_status : Status
  pub reject_messages : List String

-- The checks that `Bulkhead` makes when it is wired; a negative queue cannot be written here.
unfoldable pub new_bulkhead : {A : Type 0} → Options → Flow (Result A)
new_bulkhead o =
    if ltb o.max_concurrency 1
    then panic "resilience: Bulkhead requires maxConcurrency >= 1"
    else fail o.reject_status o.reject_messages

-- Where one caller stands in the middleware's body.
pub data Phase : Type 0 where
  arriving waiting running released rejected cancelled done : Phase

-- A caller that was cancelled in the queue still holds its admission until the deferred receive.
pub record Pool : Type 0 where
  pub admit : ℕ
  pub exec : ℕ
  pub callers : List Phase

module _ (o : Options) where
  abbrev pub admit_cap : ℕ
  admit_cap = o.max_concurrency + o.max_queue

  -- One caller moves: what it needs of the pools, and what it leaves in them.
  pub data Move : Phase → ℕ → ℕ → Phase → ℕ → ℕ → Type 0 where
    admitted : {a e : ℕ} → a < admit_cap → Move arriving a e waiting (a + 1) e
    refused : {a e : ℕ} → admit_cap ≤ a → Move arriving a e rejected a e
    starts : {a e : ℕ} → e < o.max_concurrency → Move waiting a e running a (e + 1)
    cancels : {a e : ℕ} → Move waiting a e cancelled a e
    -- `next` has returned or panicked, and `<-exec` runs
    ends : {a e : ℕ} → Move running a e released a (e - 1)
    -- then `<-admit`
    leaves : {a e : ℕ} → Move released a e done (a - 1) e
    leaves_queue : {a e : ℕ} → Move cancelled a e done (a - 1) e

  -- A caller anywhere in the list moves, or a new one arrives.
  pub data Step : Pool → Pool → Type 0 where
    arrive :
        {a e : ℕ} {callers : List Phase}
        → Step
            (record { admit = a; exec = e; callers = callers })
            (record { admit = a; exec = e; callers = arriving ∷ callers })
    move :
        {a e a' e' : ℕ} {p q : Phase} (before after : List Phase)
        → Move p a e q a' e'
        → Step
            (record { admit = a; exec = e; callers = before ++ p ∷ after })
            (record { admit = a'; exec = e'; callers = before ++ q ∷ after })

  abbrev pub empty_pool : Pool
  empty_pool = record { admit = 0; exec = 0; callers = [] }

  pub data Reach : Pool → Type 0 where
    start : Reach empty_pool
    next : {s t : Pool} → Reach s → Step s t → Reach t
