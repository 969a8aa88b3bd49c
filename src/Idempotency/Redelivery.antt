-- ===== src/Idempotency/Redelivery.antt =====
-- The middleware over the in-memory store: what a redelivery of a settled message meets.
use benzene_go.Prelude.{
  ℕ, String, refl, ap, inl, inr, true, false, not, Option, none, some, arith, Bool-cases, is_some,
  ◌+◌, ◌<◌, ◌≡◌, ◌∙◌, ◌||◌, ◌==◌, string_eq, nat_eq,
}
use benzene_go.Maps.{lookup, lookup-insert_self, lookup-delete_self}
use benzene_go.Flow.{Err, Flow, ret, pure, ◌>>◌}
use benzene_go.Result.{ignored}
use benzene_go.Pipeline.{Ctx, Invocation, State, Next}
use benzene_go.Router.{put_result}
use benzene_go.Idempotency.{
  completed, won, lost, Memory, claim, complete, release, in_memory_store, result_successful,
  middleware, after_claim, after_next, settle, settle_error,
}

with_world : {V W : Type 0} → State V W → W → State V W
with_world s w = record s { world = w }

module _ {V : Type 0} (k : String) where
  after_success :
      (s : State V Memory)
      → result_successful s.ic.result ≡ true
      → after_next in_memory_store k none s ≡ (ret none, with_world s (complete k s.world).1)
  unfolding after_next settle in_memory_store with_world
  after_success s good = rw good refl

  after_failure :
      (err : Option Err) (s : State V Memory)
      → (is_some err || not (result_successful s.ic.result)) ≡ true
      → after_next in_memory_store k err s ≡ (ret err, with_world s (release k s.world).1)
  unfolding after_next settle settle_error in_memory_store with_world
  after_failure (some err) s bad = refl
  after_failure none s bad = elim (Bool-cases (result_successful s.ic.result)) [
    | inl good ↦ absurd (cc (good, bad))
    | inr failed ↦ rw failed refl
  ]

lookup-complete :
    (k : String) (m : Memory)
    → is_some (lookup k m.entries) ≡ true
    → lookup k (complete k m).1.entries
      ≡ some (record { status = completed; expires_at = m.now + m.completed_ttl })
unfolding complete
lookup-complete k m held = ground (
  arith,
  lookup-insert_self k (record { status = completed; expires_at = m.now + m.completed_ttl })
      m.entries,
)

claim_completed :
    (k : String) (m : Memory) (until : ℕ)
    → lookup k m.entries ≡ some (record { status = completed; expires_at = until })
    → m.now < until
    → claim k m ≡ (inl (lost completed), m)
unfolding claim
claim_completed k m until h lt = ground arith

claim-release : (k : String) (m : Memory) → (claim k (release k m).1).0 ≡ inl won
unfolding claim release
claim-release k m = ground (arith, lookup-delete_self k m.entries)

module _ {C V : Type 0} (key : Invocation V → String) (ctx : Ctx C) where
  -- The state after the claim of the message's key.
  abbrev pub claimed : State V Memory → State V Memory
  claimed s = record s { world = (claim (key s.ic) s.world).1 }

  -- A delivery that wins its claim, and whose handler returns.
  pub record Delivered (next : Next C V Memory) (s s' : State V Memory) (err : Option Err)
      : Type 0 where
    pub keyed : (key s.ic == "") ≡ false
    pub wins : (claim (key s.ic) s.world).0 ≡ inl won
    pub returns : next ctx (claimed s) ≡ (ret err, s')

  middleware-Delivered :
      (next : Next C V Memory) (s s' : State V Memory) (err : Option Err)
      → Delivered next s s' err
      → middleware in_memory_store key ctx next s ≡ after_next in_memory_store (key s.ic) err s'
  unfolding middleware after_claim in_memory_store
  middleware-Delivered next s s' err d = rw d.keyed (rw d.wins (rw d.returns refl))

  lost_completed :
      (again : Next C V Memory) (t : State V Memory)
      → (key t.ic == "") ≡ false
      → claim (key t.ic) t.world ≡ (inl (lost completed), t.world)
      → middleware in_memory_store key ctx again t
        ≡ (put_result (ret (ignored none)) >> pure none) t
  unfolding middleware after_claim in_memory_store
  lost_completed again t keyed e = rw keyed (rw e refl)

  -- Where a delivery with a key won its claim over the in-memory store, its handler returned a
  -- successful result without an error and the key's record was still there: any later message
  -- with the same key, over the entries as the middleware left them and at a time before the
  -- completed record expires, gets an ignored result, and nothing behind the middleware runs.
  pub redelivery-ignored :
      (next again : Next C V Memory) (s s' t : State V Memory)
      → Delivered next s s' none
      → result_successful s'.ic.result ≡ true
      → is_some (lookup (key s.ic) s'.world.entries) ≡ true
      → key t.ic ≡ key s.ic
      → t.world.entries ≡ (middleware in_memory_store key ctx next s).1.world.entries
      → t.world.now < s'.world.now + s'.world.completed_ttl
      → middleware in_memory_store key ctx again t
        ≡ (put_result (ret (ignored none)) >> pure none) t
  redelivery-ignored next again s s' t d good held same_key same within =
      let k = key s.ic in
      let ran : t.world.entries ≡ (complete k s'.world).1.entries =
        same
        ∙ unfold with_world in
          ap (λ (p : Flow (Option Err) × State V Memory). p.1.world.entries)
            (middleware-Delivered next s s' none d ∙ after_success k s' good) in
      let stored : lookup k t.world.entries
          ≡ some
              (record { status = completed; expires_at = s'.world.now + s'.world.completed_ttl }) =
        ap (lookup k) ran ∙ lookup-complete k s'.world held in
      lost_completed again t (ap (λ j. j == "") same_key ∙ d.keyed)
        (ap (λ j. claim j t.world) same_key ∙ claim_completed k t.world _ stored within ∙ refl)

  -- Where a delivery with a key won its claim over the in-memory store and its handler returned an
  -- error, or a result that is not successful: the middleware returns that error or none, and a
  -- claim of the key then wins again.
  pub failure_frees :
      (next : Next C V Memory) (s s' : State V Memory) (err : Option Err)
      → Delivered next s s' err
      → (is_some err || not (result_successful s'.ic.result)) ≡ true
      → ((middleware in_memory_store key ctx next s).0 ≡ ret err)
        × ((claim (key s.ic) (middleware in_memory_store key ctx next s).1.world).0 ≡ inl won)
  failure_frees next s s' err d bad =
      rw (middleware-Delivered next s s' err d, after_failure (key s.ic) err s' bad)
        (unfold with_world in (refl, claim-release (key s.ic) s'.world))
