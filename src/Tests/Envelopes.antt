-- ===== src/Tests/Envelopes.antt =====
-- Results and responses over a codec that writes numbers only below ten.
use benzene_go.Prelude.{
  ℕ, String, refl, inl, inr, Bool, true, false, none, some, [], ltb, ◌≡◌, ◌∷◌, if◌then◌else◌,
}
use benzene_go.Flow.{ret}
use benzene_go.Status.{is_failure, Status, status_ok, status_unexpected_error, is_failure, is_known}
use benzene_go.Wire.{Response}
use benzene_go.Result.{Result, ResultInfo, is_successful, erase, ok, failed}
use benzene_go.Topic.{Topic}
use benzene_go.Pipeline.{State, Middleware, Invocation, new_invocation, run}
use benzene_go.Envelope.{Json, to_response, to_result, result_successful, reported, claims_success}
use benzene_go.Envelope.Flags.{
  ReadAs, to_result-ReadAs, to_result-to_response, unserializable-acknowledged,
}
use benzene_go.Envelope.Settling.{Settlement, at_least_once, DispatchOutcome, settle_topic}
use benzene_go.Envelope.Settling.Acknowledged.{acknowledged, settle_topic-acknowledged}
use benzene_go.Tests.Routing.{ctx}
use benzene_go.InProcess.{to_raw_result}
use benzene_go.InProcess.Results.{to_raw_result-forgets}

abbrev json : Json ℕ
json = record {
  marshal = λ n. if ltb n 10 then inl "digit" else inr "too large";
  marshal_problem = λ p. inl "problem";
  unmarshal_problem = λ text. none;
  raw = λ text. 0;
}

abbrev malformed : Status → Bool → String
malformed status claimed = "malformed response envelope"

abbrev contradictory : Response
contradictory = record {
  status_code = status_ok;
  headers = [];
  body = "";
  is_successful = some false;
}

to_result-ReadAs_example :
    (r : Result String) × (to_result json malformed contradictory ≡ ret r)
    × ReadAs json malformed contradictory r
to_result-ReadAs_example = to_result-ReadAs json malformed contradictory

abbrev small : ResultInfo ℕ
small = erase (λ n. some n) (ok 3)

to_result-to_response_example :
    (back : Result String) × (to_result json malformed (to_response json small) ≡ ret back)
    × (back.status ≡ small.result_status)
    × (is_successful back ≡ result_successful small)
unfolding erase ok is_failure result_successful
to_result-to_response_example =
    to_result-to_response json malformed small ("digit", refl) (λ h. absurd (cc h)) (λ h. refl)

abbrev large : ResultInfo ℕ
large = erase (λ n. some n) (ok 30)

abbrev begun : Invocation ℕ
begun = record (new_invocation (record { id = "orders:create"; version = "" }) none none none) {
  result = some large;
}

unserializable-acknowledged_example :
    ((reported json none begun).1 ≡ true)
    × (claims_success (reported json none begun).0 ≡ false)
    × ((reported json none begun).0.status_code ≡ status_unexpected_error)
unfolding result_successful erase ok is_failure
unserializable-acknowledged_example =
    unserializable-acknowledged json malformed large 30 "too large" begun refl refl refl refl

abbrev out_of_stock : ResultInfo ℕ
out_of_stock = erase (λ n. some n) (failed {A = ℕ} "out-of-stock" [])

to_raw_result-forgets_example :
    (back : Result String) × (to_raw_result json out_of_stock ≡ ret back)
    × (back.status ≡ "out-of-stock")
    × (is_successful back ≡ true)
unfolding erase is_known result_successful
to_raw_result-forgets_example = to_raw_result-forgets json out_of_stock tt refl refl

abbrev declines : Middleware (Unit {0}) ℕ ℕ
declines c next s = (ret none, record s { ic = record s.ic { result = some out_of_stock } })

abbrev lenient : Settlement
lenient = record { delivery = at_least_once; ignore_unmatched_topics = true }

abbrev waiting : State ℕ ℕ
waiting = record { ic = begun; world = 0 }

abbrev order : Topic
order = record { id = "orders:create"; version = "" }

abbrev declined : State ℕ ℕ
declined = record waiting {
  ic = record (new_invocation order (some []) (some 0) (some 5)) { result = some out_of_stock };
}

settle_topic-acknowledged_example :
    (out : DispatchOutcome) × (settle_topic lenient json
        (some (declines ∷ []))
        ctx
        5
        order
        []
        "{}"
        waiting
      ≡ (ret out, declined))
    × (out.acknowledge ≡ acknowledged lenient none (some out_of_stock))
unfolding run
settle_topic-acknowledged_example =
    settle_topic-acknowledged lenient json (some (declines ∷ [])) ctx 5 order [] "{}" waiting
      declined none refl
