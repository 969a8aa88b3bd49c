-- ===== src/Mesh/Trace/Roundtrip.antt =====
-- A span survives the header by which it travels.
use benzene_go.Prelude.{
  String, refl, ap, true, false, [], arith, ◌≡◌, ◌∙◌, ◌∷◌, ◌==◌, string_eq, nat_eq,
}
use benzene_go.Prelude.Splits.{split, lacks, split-append, split-lacks}
use benzene_go.Mesh.Trace.{
  Span, is_hex, all_hex, well_formed, parsed_parts, parse_traceparent, traceparent, no_trace,
  no_span,
}
use Prim.Native.String
use Prim.Native.String.append
use text.Mathlib.TextLemmas.{append_assoc}
use Prim.Native.String.{len}

all_hex-lacks : (s : String) → all_hex s ≡ true → lacks "-" s ≡ true
unfolding all_hex lacks
all_hex-lacks String.[] h = refl
all_hex-lacks (String.◌∷◌ c s) h = ground (arith, all_hex-lacks s)

-- The ids that a trace may have: hexadecimal digits, as many as there must be, and not all 0.
abbrev pub IsSpan : Span → Type 0
IsSpan s =
    (len s.trace_id ≡ 32)
    × (len s.span_id ≡ 16)
    × (all_hex s.trace_id ≡ true)
    × (all_hex s.span_id ≡ true)
    × ((s.trace_id == no_trace) ≡ false)
    × ((s.span_id == no_span) ≡ false)

-- A text in front of a dash and of more.
split-dash :
    (s t : String)
    → all_hex s ≡ true
    → split "-" (String.◌++◌ s (String.◌++◌ "-" t)) ≡ s ∷ split "-" t
split-dash s t h =
    ap (λ u. split "-" (String.◌++◌ s u))
      ((λ i. append.cons "-" "" t i) ∙ ap (String.◌∷◌ "-") (λ i. append.nil t i))
    ∙ split-append "-" s t (all_hex-lacks s h)

split-traceparent :
    (s : Span) → IsSpan s → split "-" (traceparent s) ≡ "00" ∷ s.trace_id ∷ s.span_id ∷ "01" ∷ []
unfolding traceparent
split-traceparent s (_, _, trace_hex, span_hex, _, _) =
    ap (split "-") (
      append_assoc "00" "-"
        (String.◌++◌ s.trace_id (String.◌++◌ "-" (String.◌++◌ s.span_id "-01"))))
    ∙ split-dash "00" (String.◌++◌ s.trace_id (String.◌++◌ "-" (String.◌++◌ s.span_id "-01")))
        (unfold all_hex in refl)
    ∙ ap (λ l. "00" ∷ l)
        (split-dash s.trace_id (String.◌++◌ s.span_id "-01") trace_hex
          ∙ ap (λ l. s.trace_id ∷ l)
              (split-append "-" s.span_id "01" (all_hex-lacks s.span_id span_hex)
                ∙ ap (λ l. s.span_id ∷ l) (split-lacks "-" "01" (unfold lacks in refl))))

well_formed-IsSpan : (s : Span) → IsSpan s → well_formed "00" s.trace_id s.span_id "01" ≡ true
unfolding well_formed is_hex all_hex
well_formed-IsSpan s (trace_len, span_len, trace_hex, span_hex, trace_some, span_some) =
    rw (trace_len, span_len, trace_hex, span_hex, trace_some, span_some) refl

-- A span whose trace id is 32 and whose span id 16 hexadecimal digits, neither of them all 0, is
-- read back by its two ids from the `traceparent` header that it is sent as.
pub parse_traceparent-traceparent :
    (s : Span) → IsSpan s → parse_traceparent (traceparent s) ≡ (s.trace_id, s.span_id)
unfolding parse_traceparent parsed_parts
parse_traceparent-traceparent s h =
    ap parsed_parts (split-traceparent s h) ∙ rw (well_formed-IsSpan s h) refl
