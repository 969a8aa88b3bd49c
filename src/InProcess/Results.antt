-- ===== src/InProcess/Results.antt =====
-- What a caller in the same process is told of a handler's result.
use benzene_go.Prelude.{
  String, refl, ap, subst, inl, inr, true, false, not, none, some, Option-cases, ◌≡◌, ◌∙◌,
}
use benzene_go.Flow.{ret}
use benzene_go.Status.{is_failure, is_known}
use benzene_go.Result.{Result, ResultInfo, literal, is_successful, problems_of}
use benzene_go.Envelope.{Json, result_successful}
use benzene_go.Envelope.Flags.{Serializable}
use benzene_go.Status.Laws.{unknown-not_failure}
use benzene_go.InProcess.{to_raw_result, raw_payload}

module _ {V : Type 0} (json : Json V) where
  pub to_raw_result-class :
      (r : ResultInfo V)
      → Serializable json r.result_payload
      → (back : Result String) × (to_raw_result json r ≡ ret back)
        × (back.status ≡ r.result_status)
        × (back.errors ≡ problems_of r)
        × (is_successful back ≡ not (is_failure r.result_status))
  unfolding to_raw_result raw_payload is_successful
  to_raw_result-class r writable = elim (Option-cases r.result_payload) [
    | inl empty ↦ (literal r.result_status none (problems_of r), rw empty refl, refl, refl, refl)
    | inr (v, e) ↦
        let (text, written) = subst (Serializable json) e writable in
        (
          literal r.result_status (some text) (problems_of r),
          rw e (rw written refl),
          refl,
          refl,
          refl,
        )
  ]

  -- An unsuccessful result with a status outside the vocabulary, whose payload, if any, can be
  -- marshalled, reaches a caller in the same process with its status and as a success.
  pub to_raw_result-forgets :
      (r : ResultInfo V)
      → Serializable json r.result_payload
      → is_known r.result_status ≡ false
      → result_successful r ≡ false
      → (back : Result String) × (to_raw_result json r ≡ ret back)
        × (back.status ≡ r.result_status)
        × (is_successful back ≡ true)
  to_raw_result-forgets r writable custom bad =
      let (back, made, status, errors, class) = to_raw_result-class r writable in
      (back, made, status, class ∙ ap not (unknown-not_failure r.result_status custom))
