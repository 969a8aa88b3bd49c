-- ===== src/MeshCollector/Views/Fleet/Failed.antt =====
-- A summary calls a trace failed exactly where it shows a failing status.
use benzene_go.Prelude.{
  ℕ, String, refl, sym, ap, subst, inl, inr, true, false, none, some, List, [], arith, ltb,
  Bool-cases, Option-cases, sum_by, sort_by, sum_by-sort_by, ◌≡◌, ◌∙◌, ◌∷◌, if◌then◌else◌,
}
use benzene_go.Status.{is_failure}
use benzene_go.MeshCollector.Views.{started_before}
use benzene_go.MeshCollector.Views.Fleet.{
  Event, first_failure, trace_status, any_failure, summarize,
}

abbrev failing : Event → ℕ
failing event = if is_failure event.rest.status then 1 else 0

any_failure-count : (events : List Event) → any_failure events ≡ ltb 0 (sum_by failing events)
unfolding any_failure sum_by
any_failure-count [] = refl
any_failure-count (event ∷ events) = ground (arith, any_failure-count events)

-- Sorting does not change whether some event failed.
any_failure-sort_by :
    (events : List Event) → any_failure (sort_by started_before events) ≡ any_failure events
any_failure-sort_by events =
    any_failure-count (sort_by started_before events)
    ∙ ap (ltb 0) (sum_by-sort_by started_before failing events)
    ∙ sym (any_failure-count events)

first_failure-none :
    (events : List Event) → first_failure events ≡ none → any_failure events ≡ false
unfolding first_failure any_failure
first_failure-none [] h = refl
first_failure-none (event ∷ events) h = elim (Bool-cases (is_failure event.rest.status)) [
  | inl bad ↦ absurd (cc (rw bad at h))
  | inr good ↦ rw good (first_failure-none events (rw good at h))
]

first_failure-some :
    (events : List Event) (status : String)
    → first_failure events ≡ some status
    → (is_failure status ≡ true) × (any_failure events ≡ true)
unfolding first_failure any_failure
first_failure-some [] status h = absurd (cc h)
first_failure-some (event ∷ events) status h = elim (Bool-cases (is_failure event.rest.status)) [
  | inl bad ↦ rw bad (subst (λ s. is_failure s ≡ true) (cc (rw bad at h)) bad, refl)
  | inr good ↦ rw good (first_failure-some events status (rw good at h))
]

trace_status-any_failure :
    (events : List Event) → is_failure (trace_status events) ≡ any_failure events
unfolding trace_status any_failure
trace_status-any_failure [] = unfold is_failure in refl
trace_status-any_failure (event ∷ events) = elim (Option-cases (first_failure (event ∷ events))) [
  | inl clean ↦ rw (clean, trace_status) (ground (arith, first_failure-none (event ∷ events) clean))
  | inr (status, e) ↦
      let (bad, some_bad) = first_failure-some (event ∷ events) status e in
      rw (e, trace_status) (bad ∙ sym some_bad)
]

-- A trace summary says that the trace failed exactly if the status that it shows is a failure
-- status.
pub summarize-failed :
    (trace_id : String) (events : List Event)
    → is_failure (summarize trace_id events).status ≡ (summarize trace_id events).failed
unfolding summarize
summarize-failed trace_id events =
    trace_status-any_failure (sort_by started_before events) ∙ any_failure-sort_by events
