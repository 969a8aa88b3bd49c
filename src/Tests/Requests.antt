-- ===== src/Tests/Requests.antt =====
-- A cached number, a cross-origin request, a message that is tried again, and a report over two checks of one name.
use Prim.Native.String.{count}
use Prim.Native.String.count
use benzene_go.Prelude.{
  ℕ, zero, suc, String, refl, ap, Bool, false, not, Option, none, some, List, [], arith, nat_beq,
  length, sum_by, ◌+◌, ◌≤◌, ◌≡◌, ◌∙◌, ◌&&◌, ◌∷◌, if◌then◌else◌, ◌==◌, string_eq, nat_eq,
}
use benzene_go.Maps.{total}
use benzene_go.Flow.{Go, Err, ret, panic}
use benzene_go.Cache.{CacheMemory}
use benzene_go.Cache.Hits.{load_cached, stored_at, get_or_load-hit}
use benzene_go.Cors.{
  Library, Settings, HttpRequest, Route, answer, methods_for_path, requested_headers_allowed,
}
use benzene_go.Cors.Allowed.{header_of, any_matches, answer-header_of}
use benzene_go.Status.{status_service_unavailable, status_ok}
use benzene_go.Result.{Result}
use benzene_go.Client.{RetryOptions, Send, default_backoff, default_should_retry, with_retry}
use benzene_go.Client.Tries.{Sent, with_retry-Sent}
use benzene_go.HealthCheck.{Check, HealthReport, run_checks, check_ok}
use benzene_go.HealthCheck.Keys.{IsNumbering}
use benzene_go.HealthCheck.Report.{failure, failing, run_checks-IsReport}

abbrev empty : CacheMemory ℕ
empty = record { entries = []; world = 5 }

abbrev load : Go (CacheMemory ℕ) (ℕ × Option Err)
load s = (ret (4, none), s)

abbrev encode : ℕ → Option String
encode n = some "three"

abbrev decode : String → Option ℕ
decode text = some 3

get_or_load-hit_example :
    load_cached
      (λ world. world)
      encode
      decode
      "k"
      10
      load
      (stored_at (λ world. world) encode decode "k" 10 "three" empty 14)
    ≡ (ret (3, none), stored_at (λ world. world) encode decode "k" 10 "three" empty 14)
get_or_load-hit_example =
    get_or_load-hit (λ world. world) encode decode "k" 10 "three" 3 load empty 14 refl refl

abbrev ttl : ℕ
ttl = 10

abbrev order_key : String
order_key = "order-7"

abbrev lib : Library
lib = record {
  parse = λ text. none;
  equal_fold = λ a b. a == b;
  to_lower = λ text. text;
  to_upper = λ text. text;
  trim_space = λ text. text;
  trim_slash = λ text. text;
}

abbrev settings : Settings
settings = record {
  allowed_origins = "shop.example" ∷ [];
  allowed_headers = "content-type" ∷ [];
  exposed_headers = [];
  max_age = "";
  allow_credentials = false;
}

abbrev preflight : HttpRequest
preflight = record {
  method = "OPTIONS";
  path = "/orders";
  origin = "evil.example";
  requested_headers = "content-type";
}

abbrev routes : List Route
routes = record { method = "POST"; path = "/orders" } ∷ []

answer-header_of_example :
    header_of "Access-Control-Allow-Origin" (answer lib settings routes preflight).headers ≡ (
      if not (preflight.origin == "")
        && not (length (methods_for_path lib routes preflight.path []) == 0)
        && any_matches lib settings.allowed_origins preflight.origin
        && requested_headers_allowed lib settings.allowed_headers preflight
      then some preflight.origin
      else none)
answer-header_of_example = answer-header_of lib settings routes preflight

-- A numbering with as many marks in front of the name as the number says.
abbrev marked : String → ℕ → String
marked name zero = name
marked name (suc n) = String.◌∷◌ "i" (marked name n)

count-marked : (name : String) (n : ℕ) → count (marked name n) ≡ n + count name
count-marked name zero = omega arith
count-marked name (suc n) =
    (λ i. count.cons "i" (marked name n) i) ∙ omega (arith, count-marked name n)

marked-IsNumbering : IsNumbering marked
marked-IsNumbering name m n same =
    omega (arith, count-marked name m, count-marked name n, ap count same)

abbrev panic_text : String → String
panic_text text = text

abbrev healthy : Check String
healthy = record {
  name = "db";
  outcome = ret (record { status = check_ok; kind = "db"; details = "" });
}

abbrev broken : Check String
broken = record { name = "db"; outcome = panic "no connection" }

run_checks-IsReport_example :
    (report : HealthReport String) × (run_checks marked panic_text (healthy ∷ broken ∷ [])
      ≡ some report)
    × (length report.health_checks ≡ 2)
    × (total failure report.health_checks ≡ sum_by (failing panic_text) (healthy ∷ broken ∷ []))
    × (report.is_healthy ≡ nat_beq (sum_by (failing panic_text) (healthy ∷ broken ∷ [])) 0)
run_checks-IsReport_example =
    run_checks-IsReport marked marked-IsNumbering panic_text (healthy ∷ broken ∷ [])

abbrev reply : String → Option String → Result String
reply status payload = record {
  status = status;
  payload = payload;
  errors = [];
  successful = none;
  problem = none;
  unmatched = false;
}

-- A service that is down in worlds below 2, and is called one world further each time.
abbrev call : Send ℕ
call zero = (reply status_service_unavailable none, 1)
call (suc zero) = (reply status_service_unavailable none, 2)
call (suc (suc w)) = (reply status_ok (some "{}"), suc (suc (suc w)))

abbrev rest : ℕ → ℕ → Bool × ℕ
rest delay w = (false, w)

abbrev defaults : RetryOptions
defaults = record { max_attempts = 0; backoff = none; should_retry = none }

with_retry-Sent_example :
    (n : ℕ) × Sent call rest default_backoff default_should_retry 3 n 1 0
      (with_retry defaults rest call 0).0
      (with_retry defaults rest call 0).1
    × (1 ≤ n)
    × (n ≤ 3)
with_retry-Sent_example = with_retry-Sent defaults call rest 0
