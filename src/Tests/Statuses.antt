-- ===== src/Tests/Statuses.antt =====
-- Results and the two status tables at concrete statuses.
use benzene_go.Prelude.{ℕ, refl, true, false, none, [], ◌≡◌, ◌∷◌}
use benzene_go.Flow.{ret}
use benzene_go.Status.{status_not_found, status_ok, is_success}
use benzene_go.Wire.{ErrorPayload}
use benzene_go.Result.{Result, fail, problem_result, is_successful, failed, errors_from_messages}
use benzene_go.Result.Laws.{problem_result-contradicts}

abbrev missing : Result ℕ
missing = failed status_not_found (errors_from_messages ("gone" ∷ []))

missing_made : fail {A = ℕ} status_not_found ("gone" ∷ []) ≡ ret missing
unfolding fail errors_from_messages is_success
missing_made = refl

abbrev odd_problem : ErrorPayload
odd_problem = record {
  type_uri = "";
  title = "";
  status = none;
  detail = "";
  instance_uri = "";
  benzene_status = status_ok;
  errors = [];
}

problem_result-contradicts_example :
    (r : Result ℕ) × (problem_result odd_problem ≡ ret r)
    × (is_success r.status ≡ true)
    × (is_successful r ≡ false)
unfolding is_success
problem_result-contradicts_example = problem_result-contradicts odd_problem refl
