-- ===== src/Envelope/Flags.antt =====
-- The success flag between a result and a response, in both directions.
use benzene_go.Prelude.{
  String, refl, subst, inl, inr, Bool, true, false, not, Option, none, some, [], arith, Bool-cases,
  Option-cases, ◌≡◌, ◌∙◌, ◌&&◌, ◌||◌, ◌∷◌, if◌then◌else◌, ◌==◌, string_eq, nat_eq,
}
use benzene_go.Flow.{ret}
use benzene_go.Status.{Status, status_unexpected_error, is_success, is_failure}
use benzene_go.Wire.{Response, problems}
use benzene_go.Result.{
  Result, is_successful, literal, failed, fail, fail_with, unexpected_error, errors_from_messages,
  erase,
}
use benzene_go.Pipeline.{Invocation}
use benzene_go.Envelope.{
  reported, with_response_headers, Json, to_result, claims_success, ResultInfo, to_response,
  result_successful, error_response,
}

-- A payload, where there is one, that encoding/json can write.
abbrev pub Serializable : {V : Type 0} → Json V → Option V → Type 0
Serializable json none = Unit {0}
Serializable json (some v) = (text : String) × (json.marshal v ≡ inl text)

module _ {V : Type 0} (json : Json V) (malformed : Status → Bool → String) where
  -- The status that a contradictory envelope is read as.
  abbrev pub contradicts : Response → Bool
  contradicts resp =
      (claims_success resp && is_failure resp.status_code)
      || (not (claims_success resp) && is_success resp.status_code)

  pub record ReadAs (resp : Response) (r : Result String) : Type 0 where
    pub status : r.status ≡ (if contradicts resp then status_unexpected_error else resp.status_code)
    pub class : is_successful r ≡ (claims_success resp && not (is_failure resp.status_code))

  fails-ReadAs :
      (resp : Response)
      → contradicts resp ≡ false
      → claims_success resp ≡ false
      → is_success resp.status_code ≡ false
      → (r : Result String) × (to_result json malformed resp ≡ ret r) × ReadAs resp r
  unfolding to_result fail fail_with is_successful
  fails-ReadAs resp agrees fails other = elim (Option-cases (json.unmarshal_problem resp.body)) [
    | inl opaque ↦ (
      failed resp.status_code (errors_from_messages []),
      rw agrees (rw fails (rw opaque (rw other refl))),
      record { status = rw agrees refl; class = rw fails refl },
    )
    | inr (problem, e) ↦ (
      failed resp.status_code (problems problem),
      rw agrees (rw fails (rw e (rw other refl))),
      record { status = rw agrees refl; class = rw fails refl },
    )
  ]

  succeeds-ReadAs :
      (resp : Response)
      → contradicts resp ≡ false
      → claims_success resp ≡ true
      → is_failure resp.status_code ≡ false
      → (r : Result String) × (to_result json malformed resp ≡ ret r) × ReadAs resp r
  unfolding to_result is_successful
  succeeds-ReadAs resp agrees claims other = elim (Bool-cases (resp.body == "")) [
    | inl empty ↦ (
      literal resp.status_code none [],
      rw agrees (rw claims (rw empty refl)),
      record { status = rw agrees refl; class = rw (claims, other) refl },
    )
    | inr full ↦ (
      literal resp.status_code (some resp.body) [],
      rw agrees (rw claims (rw full refl)),
      record { status = rw agrees refl; class = rw (claims, other) refl },
    )
  ]

  contradicts-ReadAs :
      (resp : Response)
      → contradicts resp ≡ true
      → (r : Result String) × (to_result json malformed resp ≡ ret r) × ReadAs resp r
  unfolding to_result unexpected_error is_successful
  contradicts-ReadAs resp bad = (
    failed status_unexpected_error
        (errors_from_messages (malformed resp.status_code (claims_success resp) ∷ [])),
    rw bad refl,
    record { status = rw bad refl; class = ground arith },
  )

  -- Every response, well formed or not, is read without a panic as a result: it is successful
  -- exactly when the response claims success and its status is not a failure status, and its
  -- status is that of the response, or unexpected error where the claim contradicts the status.
  pub to_result-ReadAs :
      (resp : Response)
      → (r : Result String) × (to_result json malformed resp ≡ ret r) × ReadAs resp r
  to_result-ReadAs resp = elim (Bool-cases (contradicts resp)) [
    | inl bad ↦ contradicts-ReadAs resp bad
    | inr agrees ↦ elim (Bool-cases (claims_success resp)) [
      | inl claims ↦ succeeds-ReadAs resp agrees claims (ground arith)
      | inr fails ↦ fails-ReadAs resp agrees fails (ground arith)
    ]
  ]

  to_response-success :
      (r : ResultInfo V)
      → Serializable json r.result_payload
      → result_successful r ≡ true
      → (claims_success (to_response json r) ≡ true)
        × ((to_response json r).status_code ≡ r.result_status)
  unfolding to_response
  to_response-success r writable good = elim (Option-cases r.result_payload) [
    | inl empty ↦ rw good (rw empty (refl, refl))
    | inr (v, e) ↦
        let (text, written) = subst (Serializable json) e writable in
        rw good (rw e (rw written (refl, refl)))
  ]

  to_response-failure :
      (r : ResultInfo V)
      → result_successful r ≡ false
      → (claims_success (to_response json r) ≡ false)
        × ((to_response json r).status_code ≡ r.result_status)
  unfolding to_response error_response
  to_response-failure r bad = rw bad (refl, refl)

  to_response-flag :
      (r : ResultInfo V)
      → Serializable json r.result_payload
      → (claims_success (to_response json r) ≡ result_successful r)
        × ((to_response json r).status_code ≡ r.result_status)
  to_response-flag r writable = elim (Bool-cases (result_successful r)) [
    | inl good ↦ rw good (to_response-success r writable good)
    | inr bad ↦ rw bad (to_response-failure r bad)
  ]

  -- A result whose success does not contradict its status and whose payload, if any, can be
  -- marshalled comes back from its response with the same status and the same success.
  pub to_result-to_response :
      (r : ResultInfo V)
      → Serializable json r.result_payload
      → (is_failure r.result_status ≡ true → result_successful r ≡ false)
      → (is_success r.result_status ≡ true → result_successful r ≡ true)
      → (back : Result String) × (to_result json malformed (to_response json r) ≡ ret back)
        × (back.status ≡ r.result_status)
        × (is_successful back ≡ result_successful r)
  to_result-to_response r writable failing succeeding =
      let resp = to_response json r in
      let (flag, code) = to_response-flag r writable in
      let (back, read, seen) = to_result-ReadAs resp in
      let agrees : contradicts resp ≡ false =
        rw (flag, code) (ground (arith, failing, succeeding)) in
      (
        back,
        read,
        rw (seen.status, agrees) code,
        seen.class ∙ rw (flag, code) (ground (arith, failing)),
      )

  -- Where the pipeline left a successful result whose payload cannot be marshalled, a dispatch
  -- reports success beside a response that claims failure, with the status unexpected error.
  pub unserializable-acknowledged :
      (r : ResultInfo V) (v : V) (err : String) (ic : Invocation V)
      → result_successful r ≡ true
      → r.result_payload ≡ some v
      → json.marshal v ≡ inr err
      → ic.result ≡ some r
      → ((reported json none ic).1 ≡ true)
        × (claims_success (reported json none ic).0 ≡ false)
        × ((reported json none ic).0.status_code ≡ status_unexpected_error)
  unfolding reported to_response with_response_headers error_response erase
  unserializable-acknowledged r v err ic good e bad there =
      rw there (rw good (rw e (rw bad (refl, refl, refl))))
