-- ===== src/Mesh/Trace.antt =====
-- mesh/trace.go, mesh/span.go and mesh/clienttrace.go: the trace that an invocation joins or starts,
-- and the header by which it goes on. Durations are left out, and random ids are parameters.

pub mod Roundtrip
use benzene_go.Prelude.{
  ℕ, String, Bool, true, not, Option, none, some, List, [], leb, ◌-◌, ◌%◌, ◌&&◌, ◌||◌, ◌∷◌, ◌++◌,
  if◌then◌else◌, ◌==◌, string_eq, nat_eq,
}
use benzene_go.Prelude.Splits.{split}
use benzene_go.Maps.{Map, lookup, insert}
use benzene_go.Flow.{Go, Err, Flow, ret, pure, gets, modify, ◌>>=◌, ◌>>◌}
use benzene_go.Status.{Status}
use benzene_go.Pipeline.{Ctx, State, Middleware, Next}
use benzene_go.Result.{ResultInfo}
use Prim.Native.Char.{Char, code}
use Prim.Native.String
use Prim.Native.String.{len}

-- The digits that `hex.DecodeString` takes.
abbrev pub is_hex_digit : Char → Bool
is_hex_digit c =
    (leb 48 (code c) && leb (code c) 57)
    || (leb 65 (code c) && leb (code c) 70)
    || (leb 97 (code c) && leb (code c) 102)

unfoldable pub all_hex : String → Bool
all_hex String.[] = true
all_hex (String.◌∷◌ c s) = is_hex_digit c && all_hex s

-- `isHex`: digits only, and an even number of them.
unfoldable pub is_hex : String → Bool
unfolding all_hex
is_hex s = all_hex s && len s % 2 == 0

abbrev pub no_trace : String
no_trace = "00000000000000000000000000000000"

abbrev pub no_span : String
no_span = "0000000000000000"

-- The test of `parseTraceparent` on the four parts of a header.
unfoldable pub well_formed : String → String → String → String → Bool
unfolding is_hex
well_formed version trace parent flags =
    len version == 2
    && len trace == 32
    && len parent == 16
    && len flags == 2
    && is_hex version
    && is_hex trace
    && is_hex parent
    && is_hex flags
    && not (trace == no_trace || parent == no_span)

unfoldable pub parsed_parts : List String → String × String
unfolding well_formed
parsed_parts (version ∷ trace ∷ parent ∷ flags ∷ []) =
    if well_formed version trace parent flags then (trace, parent) else ("", "")
parsed_parts _ = ("", "")

-- `parseTraceparent`
unfoldable pub parse_traceparent : String → String × String
unfolding parsed_parts split
parse_traceparent header = parsed_parts (split "-" header)

pub record Span : Type 0 where
  pub trace_id : String
  pub span_id : String
  pub trace_state : String

-- `Traceparent`
unfoldable pub traceparent : Span → String
traceparent s =
    String.◌++◌ "00-" (String.◌++◌ s.trace_id (String.◌++◌ "-" (String.◌++◌ s.span_id "-01")))

-- `withTraceparent`; `equal_fold` is `strings.EqualFold`.
unfoldable pub without_trace :
    (String → String → Bool) → Map String String → Map String String → Map String String
without_trace equal_fold [] out = out
without_trace equal_fold ((name, value) ∷ headers) out = without_trace equal_fold headers (
    if equal_fold name "traceparent" || equal_fold name "tracestate"
    then out
    else insert name value out)

unfoldable pub with_traceparent :
    (String → String → Bool) → Option Span → Map String String → Map String String
unfolding without_trace traceparent
with_traceparent equal_fold none headers = headers
with_traceparent equal_fold (some span) headers =
    let out = insert "traceparent" (traceparent span) (without_trace equal_fold headers []) in
    if span.trace_state == "" then out else insert "tracestate" span.trace_state out

-- `mesh.TraceEvent`, without its duration.
pub record Traced : Type 0 where
  pub trace_id : String
  pub span_id : String
  pub parent_span_id : String
  pub service : String
  pub instance_id : String
  pub topic : String
  pub topic_version : String
  pub status : Status
  pub started_at : ℕ
  pub correlation_id : String

-- What a header map gives for a name; a missing one is "".
abbrev pub header : String → Map String String → String
header name headers = elim (lookup name headers) [ none ↦ "" | some value ↦ value ]

-- The trace that an invocation joins, or the one that it starts.
unfoldable pub joined_span : Map String String → String → String → Span × String
unfolding parse_traceparent
joined_span headers new_trace new_span =
    let parsed = parse_traceparent (header "traceparent" headers) in
    if parsed.0 == ""
    then (record { trace_id = new_trace; span_id = new_span; trace_state = "" }, parsed.1)
    else (
      record { trace_id = parsed.0; span_id = new_span; trace_state = header "tracestate" headers },
      parsed.1,
    )
