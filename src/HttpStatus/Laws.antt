-- ===== src/HttpStatus/Laws.antt =====
-- The HTTP tables keep the class of every status, and agree with one another.
use benzene_go.Prelude.{
  ℕ, refl, inl, inr, Bool, true, false, List, [], arith, Bool-cases, switch, switch-unlisted, ◌≤◌,
  ◌<◌, ◌≡◌, ◌∷◌, if◌then◌else◌, string_eq, nat_eq,
}
use benzene_go.Status.{
  Status, status_ok, status_deleted, status_ignored, status_updated, is_success, is_failure,
  is_known,
}
use benzene_go.Status.Laws.{is_success-All, is_failure-All, is_known-All}
use benzene_go.HttpStatus.{first_flag, http_rows, to_http, from_http}

-- Success statuses are exactly 2xx codes, failure statuses exactly 4xx and 5xx, whatever the flag.
abbrev pub InRange : ℕ → ℕ → ℕ → Type 0
InRange lo hi n = (lo ≤ n) × (n < hi)

-- A success status is sent as an HTTP code from 200 to 299, whatever the flag.
pub to_http-is_success :
    (s : Status) (flags : List Bool) → is_success s ≡ true → InRange 200 300 (to_http s flags)
unfolding to_http
to_http-is_success s flags = is_success-All (λ t. InRange 200 300 (to_http t flags)) s (omega arith)

-- A failure status is sent as an HTTP code from 400 to 599, whatever the flag.
pub to_http-is_failure :
    (s : Status) (flags : List Bool) → is_failure s ≡ true → InRange 400 600 (to_http s flags)
unfolding to_http
to_http-is_failure s flags = is_failure-All (λ t. InRange 400 600 (to_http t flags)) s (omega arith)

-- The two statuses that the reverse table does not give back.
abbrev pub canonical : Status → Status
canonical s =
    switch s ((status_ignored ∷ [], status_ok) ∷ (status_updated ∷ [], status_deleted) ∷ []) s

-- For a status of the vocabulary, decoding its HTTP code gives the status back, except that
-- ignored comes back as ok and updated as deleted.
pub from_http-to_http :
    (s : Status) (flags : List Bool) → is_known s ≡ true → from_http (to_http s flags) ≡ canonical s
unfolding to_http from_http
from_http-to_http s flags =
    is_known-All (λ t. from_http (to_http t flags) ≡ canonical t) s (ground arith) (ground arith)

-- An application-defined status has no row: the flag decides, and its absence means failure.
pub to_http-custom :
    (s : Status) (flags : List Bool)
    → is_known s ≡ false
    → to_http s flags ≡ (if first_flag flags then 200 else 500)
unfolding to_http is_known
to_http-custom s flags e = switch-unlisted is_known s http_rows _ (ground arith) e

relayed_custom :
    (b : Bool) (relay : List Bool)
    → to_http (from_http (if b then 200 else 500)) relay ≡ (if b then 200 else 500)
unfolding to_http from_http
relayed_custom true relay = refl
relayed_custom false relay = refl

-- An HTTP code made from any status and any flag, decoded to a status and encoded again with any
-- flag, is the same code.
pub to_http-from_http-to_http :
    (s : Status) (flags relay : List Bool)
    → to_http (from_http (to_http s flags)) relay ≡ to_http s flags
to_http-from_http-to_http s flags relay = elim (Bool-cases (is_known s)) [
  | inl known ↦
      unfold to_http from_http in
      is_known-All (λ t. to_http (from_http (to_http t flags)) relay ≡ to_http t flags) s
        (ground arith) (ground arith) known
  | inr custom ↦ rw (to_http-custom s flags custom) (relayed_custom (first_flag flags) relay)
]
